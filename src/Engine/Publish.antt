-- ===== src/Engine/Publish.antt =====
-- internal/bot/engine.go: the delivery of a prepared publication, and its reconciliation by marker.
use oc_review_bot.Common.{
  Bool, true, false, Option, none, some, ℕ, List, [], ◌∷◌, ◌++◌, Bytes, ◌==◌, if◌then◌else◌,
}
use oc_review_bot.Store.Schema.{
  Publication, PublicationStatus, pending, sending, posted, reconciliation_required, is_posted,
  publication_reconcile,
}
use oc_review_bot.Store.History.{Work}
use oc_review_bot.Store.Table.{first_where}
use oc_review_bot.Engine.Errors.{
  Failure, Outcome, value, failed, store, publication_in_flight, errors_is,
  is_publication_reconcile,
}
use oc_review_bot.Engine.Program.{
  list_publications, find_marker, create_comment, publication_post, Action, after, ◌>>=◌, ◌>>◌,
  pure, fail, keep,
}
use oc_review_bot.Engine.Checks.{
  process_error, review_side_effect_error, write_review, ensure_current_head,
}

-- errors.Join(store.ErrPublicationReconcile, err)
abbrev pub publication_unresolved : Failure → Failure
publication_unresolved e = store publication_reconcile ∷ e

abbrev list_of_review : Action (List Publication)
list_of_review r = list_publications r.id (keep r)

-- `findPublication`: the marker of a summary or of an inline comment is searched for.
unfoldable pub find_publication : Publication → Action (Option ℕ)
find_publication p r = find_marker p.kind r.repo_full r.pr_number p.marker (keep r)

-- `createPublication`
unfoldable pub create_publication : Publication → Action ℕ
create_publication p r = create_comment (publication_post p) r.repo_full r.pr_number (keep r)

abbrev pub claim_for_send : Publication → Action Bool
claim_for_send p =
    write_review (λ r. Work.claim_publication_for_send r.id r.execution_generation p.id)

abbrev pub mark_posted : Publication → ℕ → Action Bool
mark_posted p comment_id =
    write_review (λ r. Work.mark_publication_posted r.id r.execution_generation p.id comment_id)

module _ {A : Type 0} where
  abbrev pub join_mark : Failure → Outcome Bool → Action A
  join_mark e (value b) = fail (publication_unresolved e)
  join_mark e (failed mark) = fail (publication_unresolved (e ++ mark))

  -- `publicationUncertain`
  unfoldable pub publication_uncertain : Publication → Failure → Action A
  unfolding after write_review
  publication_uncertain p e =
      after
        (write_review
          (λ r. Work.mark_publication_reconciliation_required r.id r.execution_generation p.id))
        (join_mark e)

  abbrev pub or_unresolved : Outcome A → Action A
  or_unresolved (value a) = pure a
  or_unresolved (failed e) = fail (publication_unresolved e)

  -- An error of the part is joined with ErrPublicationReconcile.
  abbrev pub unresolved : Action A → Action A
  unresolved m = after m or_unresolved

  abbrev pub or_uncertain : Publication → Outcome A → Action A
  or_uncertain p (value a) = pure a
  or_uncertain p (failed e) = publication_uncertain p e

  -- After an error of the part the publication is left for reconciliation.
  abbrev pub uncertain : Publication → Action A → Action A
  uncertain p m = after m (or_uncertain p)

abbrev pub require_found : Option ℕ → Action ℕ
require_found none = fail (publication_unresolved [])
require_found (some comment_id) = pure comment_id

-- `reconcilePublication`
unfoldable pub reconcile_publication : Publication → Action (Unit {0})
unfolding review_side_effect_error find_publication write_review after
reconcile_publication p = do
  unresolved review_side_effect_error
  found ← unresolved (find_publication p)
  comment_id ← require_found found
  unresolved review_side_effect_error
  unresolved (mark_posted p comment_id)
  pure tt

abbrev has_posted_status : Option Publication → Bool
has_posted_status none = false
has_posted_status (some p) = is_posted p.status

-- The row is looked up in a new listing.
abbrev is_posted_now : Publication → List Publication → Bool
is_posted_now p current = has_posted_status (first_where (λ q. q.id == p.id) current)

abbrev pub require_posted : Bool → Action (Unit {0})
require_posted was_posted = if was_posted then pure tt else fail (publication_in_flight ∷ [])

module _ (equal_fold : Bytes → Bytes → Bool) (digest : Bytes → Bytes) where
  -- The second search, after a last check of the revision.
  abbrev pub look_again : Publication → Option ℕ → Action (Option ℕ)
  look_again p (some comment_id) = pure (some comment_id)
  look_again p none = do
    review_side_effect_error
    ensure_current_head equal_fold digest p.commit_sha
    find_publication p

  -- The POST, which stands directly behind the record of its start.
  unfoldable pub send_unless_found : Publication → Option ℕ → Action ℕ
  unfolding review_side_effect_error create_publication publication_uncertain write_review after
  send_unless_found p (some comment_id) = pure comment_id
  send_unless_found p none = do
    review_side_effect_error
    write_review (λ r. Work.begin_publication_send r.id r.execution_generation p.id)
    uncertain p (do review_side_effect_error; create_publication p)

  unfoldable pub deliver : Publication → Action (Unit {0})
  unfolding review_side_effect_error ensure_current_head find_publication send_unless_found
      process_error publication_uncertain write_review after
  deliver p = do
    ensure_current_head equal_fold digest p.commit_sha
    review_side_effect_error
    first ← find_publication p
    found ← look_again p first
    comment_id ← send_unless_found p found
    uncertain p (do process_error; mark_posted p comment_id)
    pure tt

  -- What follows ClaimPublicationForSend.
  abbrev pub after_claim : Publication → Outcome Bool → Action (Unit {0})
  after_claim p (failed e) =
      if errors_is is_publication_reconcile e then reconcile_publication p else fail e
  after_claim p (value true) = deliver p
  after_claim p (value false) = do
    current ← list_of_review
    require_posted (is_posted_now p current)

  abbrev pub claim_and_deliver : Publication → Action (Unit {0})
  claim_and_deliver p = do process_error; after (claim_for_send p) (after_claim p)

  abbrev pub publish_by_status : Publication → PublicationStatus → Action (Unit {0})
  publish_by_status p posted = pure tt
  publish_by_status p reconciliation_required = reconcile_publication p
  publish_by_status p pending = claim_and_deliver p
  publish_by_status p sending = claim_and_deliver p

  unfoldable pub publish_all : List Publication → Action (Unit {0})
  unfolding deliver reconcile_publication process_error write_review after
  publish_all [] = pure tt
  publish_all (p ∷ ps) = do publish_by_status p p.status; publish_all ps

  -- `publishPrepared`
  unfoldable pub publish_prepared : Action Bool
  unfolding publish_all process_error write_review
  publish_prepared = do
    publications ← list_of_review
    publish_all publications
    process_error
    write_review (λ r. Work.finish_review_done r.id r.execution_generation)
