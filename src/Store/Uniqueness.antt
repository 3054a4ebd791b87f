-- ===== src/Store/Uniqueness.antt =====
-- How many reviews a pull request and a trigger comment can have.
use oc_review_bot.Common.{
  ℕ, ◌≤◌, ◌≡◌, Bool, true, false, ◌&&◌, List, [], ◌∷◌, ◌++◌, arith, ◌==◌, any, inl, inr, Bool-cases,
}
use oc_review_bot.Store.Schema.{Db, empty_db, Review, Publication}
use oc_review_bot.Store.Table.{count_where}
use oc_review_bot.Store.Table.Counting.{count_where-update-le, count_where-append, count_where-none}
use oc_review_bot.Store.Admission.{is_conflicting, is_active_for}
use oc_review_bot.Store.Frame.{Frame, LeaseFrame, PurgeFrame, SameReview, ReviewWrite, ReviewDone}
use oc_review_bot.Store.History.{Call, run}
use oc_review_bot.Store.History.Induction.{run-keeps}

-- The review was requested by this comment of the repository.
abbrev pub is_triggered_by : ℕ → ℕ → Review → Bool
is_triggered_by repository_id comment_id r =
    r.repository_id == repository_id && r.trigger_comment_id == comment_id

module _ (repository_id pr_number comment_id : ℕ) where
  record IsUnique (db : Db) : Type 0 where
    active : count_where (is_active_for repository_id pr_number) db.reviews ≤ 1
    triggered : count_where (is_triggered_by repository_id comment_id) db.reviews ≤ 1

  active_before :
      {r s : Review}
      → ReviewWrite r s
      → is_active_for repository_id pr_number s ≡ true
      → is_active_for repository_id pr_number r ≡ true
  active_before w h = ground arith

  active_before_done :
      {r s : Review} (publications : List Publication)
      → ReviewDone publications r s
      → is_active_for repository_id pr_number s ≡ true
      → is_active_for repository_id pr_number r ≡ true
  active_before_done publications w h = ground arith

  triggered_before :
      {r s : Review}
      → SameReview r s
      → is_triggered_by repository_id comment_id s ≡ true
      → is_triggered_by repository_id comment_id r ≡ true
  triggered_before w h = ground arith

  no_active :
      (r : Review) (xs : List Review)
      → any (is_conflicting r) xs ≡ false
      → is_active_for repository_id pr_number r ≡ true
      → any (is_active_for repository_id pr_number) xs ≡ false
  unfolding is_conflicting
  no_active r [] h a = ground arith
  no_active r (x ∷ xs) h a = ground (arith, no_active r xs)

  no_triggered :
      (r : Review) (xs : List Review)
      → any (is_conflicting r) xs ≡ false
      → is_triggered_by repository_id comment_id r ≡ true
      → any (is_triggered_by repository_id comment_id) xs ≡ false
  unfolding is_conflicting
  no_triggered r [] h a = ground arith
  no_triggered r (x ∷ xs) h a = ground (arith, no_triggered r xs)

  count-append-le :
      (q : Review → Bool) (r : Review) (xs : List Review)
      → (q r ≡ true → any q xs ≡ false)
      → count_where q xs ≤ 1
      → count_where q (xs ++ r ∷ []) ≤ 1
  count-append-le q r xs fresh h = elim (Bool-cases (q r)) [
    | inl e ↦ ground (arith, count_where-append q xs r, count_where-none q xs (fresh e))
    | inr e ↦ ground (arith, count_where-append q xs r)
  ]

  IsUnique-frame : Frame IsUnique
  IsUnique-frame = record {
    reviews = λ test f db w h. record {
      active = omega (
        arith,
        h.active,
        count_where-update-le _ test f (λ r t. active_before (w r t)) db.reviews,
      );
      triggered = omega (
        arith,
        h.triggered,
        count_where-update-le (is_triggered_by repository_id comment_id) test f
            (λ r t k. triggered_before (w r t).same k) db.reviews,
      );
    };
    completion = λ test f db w h. record {
      active = omega (
        arith,
        h.active,
        count_where-update-le _ test f (λ r t. active_before_done db.publications (w r t))
            db.reviews,
      );
      triggered = omega (
        arith,
        h.triggered,
        count_where-update-le (is_triggered_by repository_id comment_id) test f
            (λ r t k. triggered_before (w r t).same k) db.reviews,
      );
    };
    publications = λ test f db w h. record { active = h.active; triggered = h.triggered };
    nudges = λ test f db w h. record { active = h.active; triggered = h.triggered };
    findings = λ fs db h. record { active = h.active; triggered = h.triggered };
    deliveries = λ ds db e h. record { active = h.active; triggered = h.triggered };
    new_review = λ r db i q c h. record {
      active = count-append-le _ r db.reviews (no_active r db.reviews c) h.active;
      triggered = count-append-le _ r db.reviews (no_triggered r db.reviews c) h.triggered;
    };
    new_publication = λ p db i q c h. record { active = h.active; triggered = h.triggered };
    new_nudge = λ n db i q h. record { active = h.active; triggered = h.triggered };
  }

  IsUnique-leases : LeaseFrame IsUnique
  IsUnique-leases = record {
    lease = λ l db le h. record { active = h.active; triggered = h.triggered };
  }

  IsUnique-purges : PurgeFrame IsUnique
  IsUnique-purges = record {
    purge = λ ds db h. record { active = h.active; triggered = h.triggered };
  }

-- After any history of calls from the empty database, a pull request has at most one review that
-- is queued, running or waiting for reconciliation.
pub one_active_review :
    (cs : List (ℕ × Call)) (repository_id pr_number : ℕ)
    → count_where (is_active_for repository_id pr_number) (run cs empty_db).reviews ≤ 1
unfolding count_where
one_active_review cs repository_id pr_number =
    (run-keeps (IsUnique-frame repository_id pr_number 0)
      (IsUnique-leases repository_id pr_number 0) (IsUnique-purges repository_id pr_number 0) cs
      empty_db (record { active = omega arith; triggered = omega arith })).active

-- After any history of calls from the empty database, a comment of a repository has requested at
-- most one review, whatever deliveries brought it.
pub one_review_per_comment :
    (cs : List (ℕ × Call)) (repository_id comment_id : ℕ)
    → count_where (is_triggered_by repository_id comment_id) (run cs empty_db).reviews ≤ 1
unfolding count_where
one_review_per_comment cs repository_id comment_id =
    (run-keeps (IsUnique-frame repository_id 0 comment_id)
      (IsUnique-leases repository_id 0 comment_id) (IsUnique-purges repository_id 0 comment_id) cs
      empty_db (record { active = omega arith; triggered = omega arith })).triggered
