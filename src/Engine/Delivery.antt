-- ===== src/Engine/Delivery.antt =====
-- internal/bot/engine.go: what `publishPrepared` does when nothing stands in its way.
use oc_review_bot.Common.{
  arith, ◌≡◌, refl, ◌∙◌, ap, Bool, true, false, ◌||◌, none, List, [], ◌∷◌, ◌++◌, Bytes, text_eq,
  is_empty, if◌then◌else◌, append-nil,
}
use oc_review_bot.Store.Schema.{
  Review, Publication, PublicationStatus, pending, sending, posted, reconciliation_required,
  is_pending, is_posted,
}
use oc_review_bot.Engine.Errors.{value}
use oc_review_bot.Engine.Program.{
  Program, Pr, Post, publication_post, bind, Action, ◌>>=◌, after, pure, the_review, set_review,
  go_on,
}
use oc_review_bot.Engine.Checks.{
  process_error, review_side_effect_error, write_review, verify_pr_target, revision_token,
  ensure_current_revision, ensure_current_head,
}
use oc_review_bot.Engine.Publish.{
  find_publication, look_again, create_publication, send_unless_found, deliver, publish_by_status,
  publish_all, publish_prepared,
}

-- The answers when nothing stands in the way: the lease is held, every write succeeds, the listing has
-- `publications`, the pull request is `pr`, no marker is found, and a comment gets an id.
module _ (publications : List Publication) (pr : Pr) {A : Type 0} where
  -- The posts of the program, and how it ends
  unfoldable pub oblige : Program A → List Post × A
  oblige (Program.done a) = ([], a)
  oblige (Program.lease_owned f) = oblige (f true)
  oblige (Program.context_error f) = oblige (f none)
  oblige (Program.write owner fence w f) = oblige (f (value true))
  oblige (Program.inspect t f) = oblige (f (value true))
  oblige (Program.list_publications i f) = oblige (f (value publications))
  oblige (Program.request r f) = oblige (f (value []))
  oblige (Program.get_pr r n f) = oblige (f (value pr))
  oblige (Program.list_files r n f) = oblige (f (value []))
  oblige (Program.find_marker i r n m f) = oblige (f (value none))
  oblige (Program.create_comment p r n f) =
      let (posts, a) : List Post × A = oblige (f (value 1)) in (p ∷ posts, a)
  oblige (Program.model_setting f) = oblige (f [])
  oblige (Program.acquire_key f) = oblige (f (value 1))
  oblige (Program.exhaust_key i f) = oblige (f (value true))
  oblige (Program.run_agent o f) = oblige (f (value []))

abbrev join : {B : Type 0} → List Post → List Post × B → List Post × B
join posts (more, b) = (posts ++ more, b)

module _ (publications : List Publication) (pr : Pr) {A B : Type 0} where
  oblige-bind :
      (m : Program A) (f : A → Program B)
      → oblige publications pr (bind m f)
        ≡ join
            (oblige publications pr m).0
            (oblige publications pr (f (oblige publications pr m).1))
  unfolding oblige bind
  oblige-bind (Program.done a) f = refl
  oblige-bind (Program.lease_owned k) f = oblige-bind (k true) f
  oblige-bind (Program.context_error k) f = oblige-bind (k none) f
  oblige-bind (Program.write owner fence w k) f = oblige-bind (k (value true)) f
  oblige-bind (Program.inspect t k) f = oblige-bind (k (value true)) f
  oblige-bind (Program.list_publications i k) f = oblige-bind (k (value publications)) f
  oblige-bind (Program.request r k) f = oblige-bind (k (value [])) f
  oblige-bind (Program.get_pr r n k) f = oblige-bind (k (value pr)) f
  oblige-bind (Program.list_files r n k) f = oblige-bind (k (value [])) f
  oblige-bind (Program.find_marker i r n m k) f = oblige-bind (k (value none)) f
  oblige-bind (Program.create_comment p r n k) f =
      ap (λ q. (p ∷ q.0, q.1)) (oblige-bind (k (value 1)) f)
  oblige-bind (Program.model_setting k) f = oblige-bind (k []) f
  oblige-bind (Program.acquire_key k) f = oblige-bind (k (value 1)) f
  oblige-bind (Program.exhaust_key i k) f = oblige-bind (k (value true)) f
  oblige-bind (Program.run_agent o k) f = oblige-bind (k (value [])) f

module _ (publications : List Publication) (pr : Pr) {A B : Type 0} where
  -- The next part, after one that ended with `a` and posted `posts`
  proceed :
      (m : Action A) (f : A → Action B) (r r' : Review) (a : A) (posts : List Post)
      → oblige publications pr (m r) ≡ (posts, (value a, r'))
      → oblige publications pr ((m >>= f) r) ≡ join posts (oblige publications pr (f a r'))
  unfolding ◌>>=◌
  proceed m f r r' a posts h = oblige-bind publications pr (m r) (go_on f) ∙ rw h refl

module _ (publications : List Publication) (pr : Pr) where
  check_passes :
      (r : Review) → oblige publications pr (review_side_effect_error r) ≡ ([], (value tt, r))
  unfolding oblige review_side_effect_error process_error ◌>>=◌ bind the_review pure
  check_passes r = refl

-- The pull request still is the one that the row was claimed and prepared for.
pub record IsCurrent (equal_fold : Bytes → Bytes → Bool) (digest : Bytes → Bytes) (pr : Pr)
    (r : Review) : Type 0 where
  pub is_target : verify_pr_target r.repository_id r.pr_number pr ≡ value r.repo_full
  pub has_token : is_empty (revision_token digest pr) ≡ false
  pub has_revision : is_empty r.head_revision ≡ false
  pub same_revision : text_eq (revision_token digest pr) r.head_revision ≡ true
  pub same_head : equal_fold pr.head_sha r.head_sha ≡ true

module _ (equal_fold : Bytes → Bytes → Bool) (pr : Pr) where
  -- The publication is posted already, or it waits and belongs to the head of the pull request.
  pub record IsDue (p : Publication) : Type 0 where
    pub in_order : is_pending p.status || is_posted p.status ≡ true
    pub of_head : equal_fold pr.head_sha p.commit_sha ≡ true

  abbrev pub AllDue : List Publication → Type 0
  AllDue [] = Unit
  AllDue (p ∷ ps) = IsDue p × AllDue ps

-- What is left to be posted, in the order of the listing
unfoldable pub undelivered : List Publication → List Post
undelivered [] = []
undelivered (p ∷ ps) =
    let rest = undelivered ps in if is_posted p.status then rest else publication_post p ∷ rest

abbrev one_post : Publication → PublicationStatus → List Post
one_post p status = if is_posted status then [] else publication_post p ∷ []

split_posts :
    (b : Bool) (p : Post) (rest : List Post)
    → (if b then [] else p ∷ []) ++ rest ≡ (if b then rest else p ∷ rest)
split_posts true p rest = refl
split_posts false p rest = refl

module _ (publications : List Publication) (pr : Pr) (equal_fold : Bytes → Bytes → Bool)
    (digest : Bytes → Bytes) where
  revision_passes :
      (r : Review)
      → IsCurrent equal_fold digest pr r
      → oblige publications pr (ensure_current_revision equal_fold digest r) ≡ ([], (value pr, r))
  unfolding oblige ensure_current_revision review_side_effect_error process_error ◌>>=◌ bind
      the_review set_review write_review pure
  revision_passes r c =
      rw (c.is_target, go_on, bind, oblige)
        (rw (c.has_token, oblige)
          (rw (c.has_revision, oblige)
            (rw (c.same_revision, oblige) (rw (c.same_head, oblige) refl))))

  head_passes :
      (r : Review) (sha : Bytes)
      → IsCurrent equal_fold digest pr r
      → equal_fold pr.head_sha sha ≡ true
      → oblige publications pr (ensure_current_head equal_fold digest sha r) ≡ ([], (value pr, r))
  unfolding oblige ensure_current_head pure
  head_passes r sha c h =
      proceed publications pr (ensure_current_revision equal_fold digest) _ r r pr []
        (revision_passes r c)
      ∙ rw h refl

  look_passes :
      (r : Review) (p : Publication)
      → IsCurrent equal_fold digest pr r
      → equal_fold pr.head_sha p.commit_sha ≡ true
      → oblige publications pr (look_again equal_fold digest p none r) ≡ ([], (value none, r))
  unfolding oblige find_publication
  look_passes r p c h =
      proceed publications pr review_side_effect_error _ r r tt [] (check_passes publications pr r)
      ∙ proceed publications pr (ensure_current_head equal_fold digest p.commit_sha) _ r r pr []
          (head_passes r p.commit_sha c h)

  deliver_passes :
      (r : Review) (p : Publication)
      → IsCurrent equal_fold digest pr r
      → equal_fold pr.head_sha p.commit_sha ≡ true
      → oblige publications pr (deliver equal_fold digest p r)
        ≡ (publication_post p ∷ [], (value tt, r))
  unfolding oblige deliver find_publication send_unless_found create_publication
      review_side_effect_error process_error write_review ◌>>=◌ bind the_review pure after
  deliver_passes r p c h =
      proceed publications pr (ensure_current_head equal_fold digest p.commit_sha) _ r r pr []
        (head_passes r p.commit_sha c h)
      ∙ proceed publications pr (look_again equal_fold digest p none) _ r r none []
          (look_passes r p c h)

  status_passes :
      (r : Review) (p : Publication) (status : PublicationStatus)
      → IsCurrent equal_fold digest pr r
      → equal_fold pr.head_sha p.commit_sha ≡ true
      → is_pending status || is_posted status ≡ true
      → oblige publications pr (publish_by_status equal_fold digest p status r)
        ≡ (one_post p status, (value tt, r))
  unfolding oblige process_error write_review ◌>>=◌ bind the_review pure after
  status_passes r p pending c h k = deliver_passes r p c h
  status_passes r p posted c h k = refl
  status_passes r p sending c h k = ground arith
  status_passes r p reconciliation_required c h k = ground arith

  all_pass :
      (r : Review) (ps : List Publication)
      → IsCurrent equal_fold digest pr r
      → AllDue equal_fold pr ps
      → oblige publications pr (publish_all equal_fold digest ps r)
        ≡ (undelivered ps, (value tt, r))
  unfolding oblige publish_all undelivered pure
  all_pass r [] c d = refl
  all_pass r (p ∷ ps) c (d, ds) =
      proceed publications pr (publish_by_status equal_fold digest p p.status) _ r r tt
        (one_post p p.status) (status_passes r p p.status c d.of_head d.in_order)
      ∙ (ap (join (one_post p p.status)) (all_pass r ps c ds)
          ∙ ap (λ posts. (posts, (value tt, r)))
              (split_posts (is_posted p.status) (publication_post p) (undelivered ps)))

-- When nothing stands in its way (the lease is held, the writes succeed, no marker is found, and the
-- pull request is still the one of the row), `publishPrepared` comes to its end without an error, and
-- it posts each publication of its listing that is not posted yet, once and in the listing's order,
-- where all of them are pending or posted and of the pull request's head.
pub publish_prepared-undelivered :
    (publications : List Publication) (pr : Pr) (equal_fold : Bytes → Bytes → Bool)
    (digest : Bytes → Bytes) (r : Review)
    → IsCurrent equal_fold digest pr r
    → AllDue equal_fold pr publications
    → oblige publications pr (publish_prepared equal_fold digest r)
      ≡ (undelivered publications, (value true, r))
unfolding oblige publish_prepared process_error write_review ◌>>=◌ bind the_review pure
publish_prepared-undelivered publications pr equal_fold digest r c d =
    proceed publications pr (publish_all equal_fold digest publications) _ r r tt
      (undelivered publications) (all_pass publications pr equal_fold digest r publications c d)
    ∙ ap (λ posts. (posts, (value true, r))) (append-nil _)
