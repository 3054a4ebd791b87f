-- ===== src/Store/Guards.antt =====
-- The guards at the head of the worker calls: they read the database and do not write to it.
use oc_review_bot.Common.{
  ℕ, ◌≡◌, refl, ◌⊎◌, inl, inr, Bool, true, false, ◌&&◌, Bytes, arith, ◌==◌, leb, Bool-cases,
}
use oc_review_bot.Store.Schema.{
  Db, Error, service_lease_lost, review_lease_lost, service_lease_fence,
  invalid_service_lease_owner,
}
use oc_review_bot.Store.Table.{count_where}
use oc_review_bot.Store.Tx.{Result, ok, err, ◌>>=◌, gets, require}
use oc_review_bot.Store.Lease.{
  is_valid_owner, is_held, validate_service_lease_owner, validate_service_lease_term,
  service_lease_current_tx, require_service_lease_tx,
}
use oc_review_bot.Store.Reviews.{is_claimed_by, review_lease_current_tx, require_review_lease_tx}

-- What the lease guard answers: the owner is not blank, the fence is positive, the lease is held.
unfoldable pub guard_answer : Bool → Bool → Bool → Db → Result (Unit {0} × Db)
guard_answer true true true db = ok (tt, db)
guard_answer true true false db = err service_lease_lost
guard_answer true false held db = err service_lease_fence
guard_answer false fenced held db = err invalid_service_lease_owner

module _ (owner : Bytes) (fence now : ℕ) (db : Db) where
  pub require_service_lease_lem :
      require_service_lease_tx owner fence now db
      ≡ guard_answer (is_valid_owner owner) (leb 1 fence) (is_held owner fence now db.lease) db
  unfolding require_service_lease_tx service_lease_current_tx validate_service_lease_term
      validate_service_lease_owner ◌>>=◌ gets require guard_answer
  require_service_lease_lem = elim (Bool-cases (is_valid_owner owner)) [
    | inl v ↦ rw v (elim (Bool-cases (leb 1 fence)) [
      | inl f ↦
          rw f
            (elim (Bool-cases (is_held owner fence now db.lease)) [ inl k ↦ rw k | inr k ↦ rw k ])
      | inr f ↦ rw f
    ])
    | inr v ↦ rw v
  ]

  -- The lease guard passes with the database unchanged, or fails.
  pub lease_guard_cases :
      (require_service_lease_tx owner fence now db ≡ ok (tt, db))
      ⊎ ((e : Error) × (require_service_lease_tx owner fence now db ≡ err e))
  unfolding guard_answer
  lease_guard_cases = rw require_service_lease_lem (ground arith)

  -- The review guard passes with the database unchanged, or fails.
  pub review_guard_cases :
      (id generation : ℕ)
      → (require_review_lease_tx owner fence now id generation db ≡ ok (tt, db))
        ⊎ ((e : Error) × (require_review_lease_tx owner fence now id generation db ≡ err e))
  unfolding require_review_lease_tx review_lease_current_tx ◌>>=◌ gets require
  review_guard_cases id generation = elim lease_guard_cases [
    | inl p ↦
        rw (p, ◌>>=◌)
          (elim (Bool-cases (
            is_held owner fence now db.lease
            && count_where (is_claimed_by owner fence now id generation) db.reviews == 1)) [
              | inl c ↦ rw (c, ◌>>=◌) (inl refl)
              | inr c ↦ rw (c, ◌>>=◌) (inr (review_lease_lost, refl))
            ])
    | inr (e, p) ↦ rw (p, ◌>>=◌) (inr (e, refl))
  ]
