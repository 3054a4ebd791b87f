-- ===== src/Store/Frame/Lease.antt =====
-- The lease operations keep whatever respects the writes of `Frame`.
use oc_review_bot.Common.{
  ℕ, ◌≤◌, Bool, true, false, Option, none, some, Bytes, arith, if◌then◌else◌,
}
use oc_review_bot.Store.Schema.{Db, ServiceLease, fence_of}
use oc_review_bot.Store.Tx.{modify}
use oc_review_bot.Store.Keeps.{Keeps, KeepsCall, keeps_rules}
use oc_review_bot.Store.Lease.{
  validate_service_lease_owner, validate_service_lease, validate_service_lease_term, taken_fence,
  expire_at, acquire_service_lease_with_fence, renew_service_lease, release_service_lease,
  service_lease_current_tx, require_service_lease_tx,
}
use oc_review_bot.Store.Frame.{Frame, LeaseFrame}

fence_of-taken : (l : Option ServiceLease) → fence_of l ≤ taken_fence l
fence_of-taken none = omega arith
fence_of-taken (some l) = omega arith

fence_of-expire_at :
    (b : Bool) (t : ℕ) (l : Option ServiceLease)
    → fence_of l ≤ fence_of (if b then expire_at t l else l)
fence_of-expire_at true t none = omega arith
fence_of-expire_at true t (some l) = omega arith
fence_of-expire_at false t l = omega arith

module _ {P : Db → Type 0} where
  Keeps-validate : (owner : Bytes) (ttl : ℕ) → Keeps P (validate_service_lease owner ttl)
  unfolding validate_service_lease validate_service_lease_owner
  Keeps-validate owner ttl = search keeps_rules

  Keeps-validate_term :
      (owner : Bytes) (fence : ℕ) → Keeps P (validate_service_lease_term owner fence)
  unfolding validate_service_lease_term validate_service_lease_owner
  Keeps-validate_term owner fence = search keeps_rules

module _ {P : Db → Type 0} (frame : LeaseFrame P) where
  Keeps-lease :
      (l : Db → Option ServiceLease)
      → ((db : Db) → fence_of db.lease ≤ fence_of (l db))
      → Keeps P (modify (λ db. record db { lease = l db }))
  unfolding modify
  Keeps-lease l h = record { at = λ db p. frame.lease (l db) db (h db) p }

  Keeps-expiry :
      (b : Bool) (t : ℕ)
      → Keeps P (modify (λ db. record db { lease = if b then expire_at t db.lease else db.lease }))
  Keeps-expiry b t = Keeps-lease _ (λ db. fence_of-expire_at b t db.lease)

  pub acquire-keeps :
      (owner : Bytes) (ttl now : ℕ) → KeepsCall P (acquire_service_lease_with_fence owner ttl now)
  unfolding acquire_service_lease_with_fence
  acquire-keeps owner ttl now =
      search (keeps_rules, Keeps-validate, Keeps-lease, fence_of-taken) depth 12

  pub renew-keeps :
      (owner : Bytes) (fence ttl now : ℕ) → KeepsCall P (renew_service_lease owner fence ttl now)
  unfolding renew_service_lease
  renew-keeps owner fence ttl now = search (keeps_rules, Keeps-validate, Keeps-expiry) depth 12

  pub release-keeps :
      (owner : Bytes) (fence now : ℕ) → KeepsCall P (release_service_lease owner fence now)
  unfolding release_service_lease
  release-keeps owner fence now = search (keeps_rules, Keeps-validate_term, Keeps-expiry) depth 12

module _ {P : Db → Type 0} (frame : Frame P) where
  pub Keeps-require_service_lease :
      (owner : Bytes) (fence now : ℕ) → Keeps P (require_service_lease_tx owner fence now)
  unfolding require_service_lease_tx service_lease_current_tx
  Keeps-require_service_lease owner fence now = search (keeps_rules, Keeps-validate_term) depth 12
