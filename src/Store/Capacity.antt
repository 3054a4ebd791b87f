-- ===== src/Store/Capacity.antt =====
-- What the admission of a review enforces: replayed deliveries and the capacity limits.
use oc_review_bot.Common.{
  if◌then◌else◌, ℕ, ◌-◌, ◌≤◌, ◌<◌, ◌≡◌, refl, inl, inr, Bool, true, false, ◌&&◌, ◌||◌, [], ◌∷◌,
  ◌++◌, Bytes, arith, leb, ◌==◌, is_empty, trim_space, text_eq, text_eq_refl, any, Bool-cases, List,
}
use oc_review_bot.Store.Schema.{
  Db, Review, ReviewAdmission, ReviewCreateResult, hour, rfc3339, invalid_argument, is_active,
}
use oc_review_bot.Store.Table.{next_id}
use oc_review_bot.Store.Table.Counting.{count_where-append, any-append}
use oc_review_bot.Store.Tx.{Result, ok, err, ◌>>=◌, pure, require, transact, gets, modify, commit}
use oc_review_bot.Store.History.{Call, NoPurge, run}
use oc_review_bot.Store.Remembered.{is_delivered-run}
use oc_review_bot.Store.Admission.{
  no_result, is_valid_identity, is_delivered, claim_delivery, count_reviews_since, is_exceeded,
  user_is_limited, repo_is_limited, active_count, is_conflicting, blocks_reconciling,
  active_review_of, insert_review, admitted, create_review_with_admission,
}

abbrev pub was_created : Result ReviewCreateResult → Bool
was_created (ok result) = result.created
was_created (err e) = false

abbrev pub says_both : Result ReviewCreateResult → Bool
says_both (ok result) = result.duplicate_delivery && result.created
says_both (err e) = false

-- The steps behind the claim of the delivery, as one answer.
module _ (r : Review) (delivery_id : Bytes) (admission : ReviewAdmission) (token : Bytes) (now : ℕ)
    (db : Db) where
  -- A delivery that is already recorded creates nothing: the call says so and the database stays as it is.
  pub replay :
      is_valid_identity r ≡ true
      → is_empty (trim_space delivery_id) ≡ false
      → is_delivered (trim_space delivery_id) db.deliveries ≡ true
      → create_review_with_admission r delivery_id admission token now db
        ≡ (ok (record no_result { duplicate_delivery = true }), db)
  unfolding create_review_with_admission claim_delivery transact ◌>>=◌ pure require gets modify
      commit
  replay valid named seen = rw (valid, named, seen) refl

  is_limited : Bool
  is_limited =
      user_is_limited admission r now db.reviews || repo_is_limited admission r now db.reviews

  -- The database with the delivery recorded.
  abbrev recorded : Db
  recorded = record db {
    deliveries =
        db.deliveries
        ++ record { delivery_id = trim_space delivery_id; created_at = rfc3339 now } ∷ [];
  }

  -- The answer to a delivery that is new: limited by rate, by the queue, by a conflicting review,
  -- or created.
  abbrev answer_new : Bool → Bool → Bool → Result ReviewCreateResult × Db
  answer_new true full conflict = (ok (record no_result { rate_limited = true }), recorded)
  answer_new false true conflict = (ok (record no_result { queue_full = true }), recorded)
  answer_new false false true = (
    ok (record no_result {
      reconciliation_required =
          blocks_reconciling (active_review_of r.repository_id r.pr_number db.reviews);
    }),
    recorded,
  )
  answer_new false false false = (
    ok (record no_result { created = true }),
    record recorded {
      reviews = db.reviews ++ admitted r token now (next_id (λ q. q.id) db.reviews) ∷ [];
    },
  )

  is_full : Bool
  is_full = is_exceeded admission.max_active (active_count db.reviews)

  fresh_lem :
      is_valid_identity r ≡ true
      → is_empty (trim_space delivery_id) ≡ false
      → is_delivered (trim_space delivery_id) db.deliveries ≡ false
      → create_review_with_admission r delivery_id admission token now db
        ≡ answer_new is_limited is_full (any (is_conflicting r) db.reviews)
  unfolding create_review_with_admission claim_delivery insert_review transact ◌>>=◌ pure require
      gets modify commit is_limited is_full
  fresh_lem valid named new =
      rw (valid, named, new)
        (elim (Bool-cases is_limited) [
          | inl l ↦ rw l
          | inr l ↦ rw l (elim (Bool-cases is_full) [
            | inl f ↦ rw f
            | inr f ↦ rw f (elim (Bool-cases (any (is_conflicting r) db.reviews)) [
              | inl c ↦ rw c
              | inr c ↦ rw c
            ])
          ])
        ])

  pub invalid_lem :
      is_valid_identity r ≡ false
      → create_review_with_admission r delivery_id admission token now db
        ≡ (err invalid_argument, db)
  unfolding create_review_with_admission transact ◌>>=◌ require
  invalid_lem invalid = rw invalid refl

  abbrev outcome : Result ReviewCreateResult × Db
  outcome = create_review_with_admission r delivery_id admission token now db

  is_delivered-recorded : is_delivered (trim_space delivery_id) recorded.deliveries ≡ true
  is_delivered-recorded = ground (
    arith,
    any-append (λ d. text_eq d.delivery_id (trim_space delivery_id)) db.deliveries
        (record { delivery_id = trim_space delivery_id; created_at = rfc3339 now }),
    text_eq_refl (trim_space delivery_id),
  )

  -- A call that does not fail leaves its delivery recorded.
  pub is_delivered-outcome :
      (result : ReviewCreateResult)
      → is_empty (trim_space delivery_id) ≡ false
      → outcome.0 ≡ ok result
      → is_delivered (trim_space delivery_id) outcome.1.deliveries ≡ true
  is_delivered-outcome result named = elim (Bool-cases (is_valid_identity r)) [
    | inl valid ↦ elim (Bool-cases (is_delivered (trim_space delivery_id) db.deliveries)) [
      | inl seen ↦ rw (replay valid named seen) (λ h. seen)
      | inr new ↦
          rw (fresh_lem valid named new)
            (λ h. keeps_record is_limited is_full (any (is_conflicting r) db.reviews))
    ]
    | inr invalid ↦ rw (invalid_lem invalid) (λ h. ground arith)
  ]
    where
      keeps_record :
          (limited full conflict : Bool)
          → is_delivered (trim_space delivery_id) (answer_new limited full conflict).1.deliveries
            ≡ true
      keeps_record true full conflict = is_delivered-recorded
      keeps_record false true conflict = is_delivered-recorded
      keeps_record false false true = is_delivered-recorded
      keeps_record false false false = is_delivered-recorded

  -- A created review passed the tests, and is the new last row.
  created_lem :
      (result : ReviewCreateResult)
      → is_empty (trim_space delivery_id) ≡ false
      → outcome.0 ≡ ok result
      → result.created ≡ true
      → (is_limited ≡ false)
        × (is_full ≡ false)
        × (outcome.1.reviews
            ≡ db.reviews ++ admitted r token now (next_id (λ q. q.id) db.reviews) ∷ [])
  created_lem result named = elim (Bool-cases (is_valid_identity r)) [
    | inl valid ↦ elim (Bool-cases (is_delivered (trim_space delivery_id) db.deliveries)) [
      | inl seen ↦ rw (replay valid named seen) (λ h c. ground arith)
      | inr new ↦
          rw (fresh_lem valid named new)
            (passed is_limited is_full (any (is_conflicting r) db.reviews))
    ]
    | inr invalid ↦ rw (invalid_lem invalid) (λ h c. ground arith)
  ]
    where
      passed :
          (limited full conflict : Bool)
          → (answer_new limited full conflict).0 ≡ ok result
          → result.created ≡ true
          → (limited ≡ false)
            × (full ≡ false)
            × ((answer_new limited full conflict).1.reviews
                ≡ db.reviews ++ admitted r token now (next_id (λ q. q.id) db.reviews) ∷ [])
      passed true full conflict h c = ground arith
      passed false true conflict h c = ground arith
      passed false false true h c = ground arith
      passed false false false h c = (refl, refl, refl)

  -- A call adds the row of the review that it says it created, and no other.
  pub reviews_lem :
      is_empty (trim_space delivery_id) ≡ false
      → outcome.1.reviews ≡ (
          if was_created outcome.0
          then db.reviews ++ admitted r token now (next_id (λ q. q.id) db.reviews) ∷ []
          else db.reviews)
  reviews_lem named = elim (Bool-cases (is_valid_identity r)) [
    | inl valid ↦ elim (Bool-cases (is_delivered (trim_space delivery_id) db.deliveries)) [
      | inl seen ↦ rw (replay valid named seen) refl
      | inr new ↦
          rw (fresh_lem valid named new)
            (by_answer is_limited is_full (any (is_conflicting r) db.reviews))
    ]
    | inr invalid ↦ rw (invalid_lem invalid) refl
  ]
    where
      by_answer :
          (limited full conflict : Bool)
          → (answer_new limited full conflict).1.reviews ≡ (
              if was_created (answer_new limited full conflict).0
              then db.reviews ++ admitted r token now (next_id (λ q. q.id) db.reviews) ∷ []
              else db.reviews)
      by_answer true full conflict = refl
      by_answer false true conflict = refl
      by_answer false false true = refl
      by_answer false false false = refl

  -- No call says that it created a review and that its delivery is a duplicate.
  pub never_both : is_empty (trim_space delivery_id) ≡ false → says_both outcome.0 ≡ false
  never_both named = elim (Bool-cases (is_valid_identity r)) [
    | inl valid ↦ elim (Bool-cases (is_delivered (trim_space delivery_id) db.deliveries)) [
      | inl seen ↦ rw (replay valid named seen) refl
      | inr new ↦
          rw (fresh_lem valid named new)
            (by_answer is_limited is_full (any (is_conflicting r) db.reviews))
    ]
    | inr invalid ↦ rw (invalid_lem invalid) refl
  ]
    where
      by_answer :
          (limited full conflict : Bool) → says_both (answer_new limited full conflict).0 ≡ false
      by_answer true full conflict = refl
      by_answer false true conflict = refl
      by_answer false false true = refl
      by_answer false false false = refl

-- After a call that did not fail, whose delivery has a name that is not blank, and any history of
-- calls of the store in which no delivery is purged, a call with the same delivery and any request of
-- valid identities reports the duplicate and changes nothing: it creates no review.
pub replay_creates_nothing :
    (r s : Review) (delivery_id token token' : Bytes) (admission admission' : ReviewAdmission)
    (now later : ℕ) (db : Db) (result : ReviewCreateResult) (cs : List (ℕ × Call))
    → is_empty (trim_space delivery_id) ≡ false
    → is_valid_identity s ≡ true
    → NoPurge cs
    → (create_review_with_admission r delivery_id admission token now db).0 ≡ ok result
    → create_review_with_admission s delivery_id admission' token' later
        (run cs (create_review_with_admission r delivery_id admission token now db).1)
      ≡ (
        ok (record no_result { duplicate_delivery = true }),
        run cs (create_review_with_admission r delivery_id admission token now db).1,
      )
replay_creates_nothing r s delivery_id token token' admission admission' now later db result cs
      named valid unpurged h =
    replay s delivery_id admission' token' later _ valid named (
      is_delivered-run (trim_space delivery_id) cs _ unpurged
        (is_delivered-outcome r delivery_id admission token now db result named h))

-- When a call with positive limits creates a review, then after it the requester has at most
-- `user_per_hour` reviews of the last hour, the repository at most `repo_per_hour`, and at most
-- `max_active` reviews are active, the new one counted.
pub created_within_limits :
    (r : Review) (delivery_id token : Bytes) (admission : ReviewAdmission) (now : ℕ) (db : Db)
    (result : ReviewCreateResult)
    → is_empty (trim_space delivery_id) ≡ false
    → 0 < admission.user_per_hour
    → 0 < admission.repo_per_hour
    → 0 < admission.max_active
    → (create_review_with_admission r delivery_id admission token now db).0 ≡ ok result
    → result.created ≡ true
    → (count_reviews_since
          (λ q. q.requester_github_id == r.requester_github_id)
          now
          (create_review_with_admission r delivery_id admission token now db).1.reviews
        ≤ admission.user_per_hour)
      × (count_reviews_since
            (λ q. q.repository_id == r.repository_id)
            now
            (create_review_with_admission r delivery_id admission token now db).1.reviews
          ≤ admission.repo_per_hour)
      × (active_count (create_review_with_admission r delivery_id admission token now db).1.reviews
          ≤ admission.max_active)
unfolding is_limited is_full count_reviews_since
created_within_limits r delivery_id token admission now db result named u p m h c =
    let (limited, full, rows) = created_lem r delivery_id admission token now db result named h c in
    let new : Review = admitted r token now (next_id (λ q. q.id) db.reviews) in
    rw rows (
      ground (
        arith,
        limited,
        count_where-append
            (λ q.
              q.requester_github_id == r.requester_github_id
              && leb (rfc3339 (now - hour)) q.created_at)
            db.reviews new,
      ),
      ground (
        arith,
        limited,
        count_where-append
            (λ q. q.repository_id == r.repository_id && leb (rfc3339 (now - hour)) q.created_at)
            db.reviews new,
      ),
      ground (arith, full, count_where-append (λ q. is_active q.status) db.reviews new),
    )
