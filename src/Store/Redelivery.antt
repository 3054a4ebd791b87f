-- ===== src/Store/Redelivery.antt =====
-- internal/store/reviews.go: what a delivery of a notification leaves behind.
use oc_review_bot.Common.{
  ◌≡◌, refl, Bool, true, false, ◌&&◌, inl, inr, Bytes, ℕ, ◌++◌, [], ◌∷◌, arith, is_empty,
  trim_space, text_eq, text_eq_refl, Bool-cases, any,
}
use oc_review_bot.Store.Schema.{
  Db, Nudge, NudgeCreateResult, invalid_argument, is_registration, rfc3339,
}
use oc_review_bot.Store.Table.{next_id}
use oc_review_bot.Store.Table.Counting.{any-append}
use oc_review_bot.Store.Tx.{Result, ok, err, ◌>>=◌, pure, require, gets, modify, commit, transact}
use oc_review_bot.Store.Admission.{claim_delivery, is_delivered}
use oc_review_bot.Store.Nudges.{
  create_nudge_once, insert_nudge, is_valid_nudge, is_legacy, nudge_conflicts, queued_nudge,
  no_nudge,
}

module _ (n : Nudge) (delivery_id token : Bytes) (now : ℕ) (db : Db) where
  abbrev recorded : Db
  recorded = record db {
    deliveries =
        db.deliveries
        ++ record { delivery_id = trim_space delivery_id; created_at = rfc3339 now } ∷ [];
  }

  -- The answer to a delivery that is new, by whether the notification is there already.
  abbrev answer_new : Bool → Bool → Result NudgeCreateResult × Db
  answer_new true conflict = (ok no_nudge, recorded)
  answer_new false true = (ok no_nudge, recorded)
  answer_new false false = (
    ok (record no_nudge { created = true }),
    record recorded {
      nudges = db.nudges ++ queued_nudge n token now (next_id (λ m. m.id) db.nudges) ∷ [];
    },
  )

  abbrev is_known : Bool
  is_known = is_registration n.kind && any (is_legacy n) db.register_nudges

  pub invalid_nudge :
      is_valid_nudge n ≡ false
      → create_nudge_once n delivery_id token now db ≡ (err invalid_argument, db)
  unfolding create_nudge_once transact ◌>>=◌ require
  invalid_nudge invalid = rw invalid refl

  pub nudge_replay :
      is_valid_nudge n ≡ true
      → is_empty (trim_space delivery_id) ≡ false
      → is_delivered (trim_space delivery_id) db.deliveries ≡ true
      → create_nudge_once n delivery_id token now db
        ≡ (ok (record no_nudge { duplicate_delivery = true }), db)
  unfolding create_nudge_once claim_delivery transact ◌>>=◌ pure require gets modify commit
  nudge_replay valid named seen = rw (valid, named, seen) refl

  nudge_fresh :
      is_valid_nudge n ≡ true
      → is_empty (trim_space delivery_id) ≡ false
      → is_delivered (trim_space delivery_id) db.deliveries ≡ false
      → create_nudge_once n delivery_id token now db
        ≡ answer_new is_known (any (nudge_conflicts n) db.nudges)
  unfolding create_nudge_once claim_delivery insert_nudge transact ◌>>=◌ pure require gets modify
      commit
  nudge_fresh valid named new =
      rw (valid, named, new)
        (elim (Bool-cases is_known) [
          | inl k ↦ rw k
          | inr k ↦ rw k (elim (Bool-cases (any (nudge_conflicts n) db.nudges)) [
            | inl c ↦ rw c
            | inr c ↦ rw c
          ])
        ])

  abbrev outcome : Result NudgeCreateResult × Db
  outcome = create_nudge_once n delivery_id token now db

  -- The call leaves the reviews as they are.
  pub nudge_keeps_reviews :
      is_empty (trim_space delivery_id) ≡ false → outcome.1.reviews ≡ db.reviews
  nudge_keeps_reviews named = elim (Bool-cases (is_valid_nudge n)) [
    | inl valid ↦ elim (Bool-cases (is_delivered (trim_space delivery_id) db.deliveries)) [
      | inl seen ↦ rw (nudge_replay valid named seen) refl
      | inr new ↦
          rw (nudge_fresh valid named new) (same is_known (any (nudge_conflicts n) db.nudges))
    ]
    | inr invalid ↦ rw (invalid_nudge invalid) refl
  ]
    where
      same : (known conflict : Bool) → (answer_new known conflict).1.reviews ≡ db.reviews
      same true conflict = refl
      same false true = refl
      same false false = refl

  is_delivered-recorded : is_delivered (trim_space delivery_id) recorded.deliveries ≡ true
  is_delivered-recorded = ground (
    arith,
    any-append (λ d. text_eq d.delivery_id (trim_space delivery_id)) db.deliveries
        (record { delivery_id = trim_space delivery_id; created_at = rfc3339 now }),
    text_eq_refl (trim_space delivery_id),
  )

  -- A call that does not fail leaves its delivery recorded.
  pub is_delivered-nudge :
      (result : NudgeCreateResult)
      → is_empty (trim_space delivery_id) ≡ false
      → outcome.0 ≡ ok result
      → is_delivered (trim_space delivery_id) outcome.1.deliveries ≡ true
  is_delivered-nudge result named = elim (Bool-cases (is_valid_nudge n)) [
    | inl valid ↦ elim (Bool-cases (is_delivered (trim_space delivery_id) db.deliveries)) [
      | inl seen ↦ rw (nudge_replay valid named seen) (λ h. seen)
      | inr new ↦
          rw (nudge_fresh valid named new) (λ h. kept is_known (any (nudge_conflicts n) db.nudges))
    ]
    | inr invalid ↦ rw (invalid_nudge invalid) (λ h. ground arith)
  ]
    where
      kept :
          (known conflict : Bool)
          → is_delivered (trim_space delivery_id) (answer_new known conflict).1.deliveries ≡ true
      kept true conflict = is_delivered-recorded
      kept false true = is_delivered-recorded
      kept false false = is_delivered-recorded
