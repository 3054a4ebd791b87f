-- ===== src/Store/Lease.antt =====
-- internal/store/leases.go: the singleton service lease and its fencing term. `now` is the reading
-- of the clock; the readings within one call are taken to be equal.
use oc_review_bot.Common.{
  ℕ, ◌+◌, Bool, true, false, not, ◌&&◌, Option, none, some, Bytes, text_eq, is_empty, trim_space,
  leb, ltb, ◌==◌, if◌then◌else◌,
}
use oc_review_bot.Store.Schema.{
  Db, ServiceLease, service_lease_lost, service_lease_fence, invalid_service_lease_owner,
  invalid_service_lease_ttl,
}
use oc_review_bot.Store.Tx.{Result, Tx, ◌>>=◌, ◌>>◌, gets, modify, require, commit, transact}

unfoldable pub is_valid_owner : Bytes → Bool
is_valid_owner owner = not (is_empty (trim_space owner))

unfoldable pub validate_service_lease_owner : Bytes → Tx (Unit {0})
validate_service_lease_owner owner = require (is_valid_owner owner) invalid_service_lease_owner

unfoldable pub validate_service_lease : Bytes → ℕ → Tx (Unit {0})
validate_service_lease owner ttl = do
  validate_service_lease_owner owner
  require (ltb 0 ttl) invalid_service_lease_ttl

unfoldable pub validate_service_lease_term : Bytes → ℕ → Tx (Unit {0})
validate_service_lease_term owner fence = do
  validate_service_lease_owner owner
  require (leb 1 fence) service_lease_fence

-- No row, or service_leases.expires_at <= now: the statement of an acquisition affects the row.
unfoldable pub is_free : ℕ → Option ServiceLease → Bool
is_free now none = true
is_free now (some l) = leb l.expires_at now

abbrev pub taken_fence : Option ServiceLease → ℕ
taken_fence none = 1
taken_fence (some l) = l.fence + 1

unfoldable pub acquire_service_lease_with_fence :
    Bytes → ℕ → ℕ → Db → Result (Option ServiceLease) × Db
acquire_service_lease_with_fence owner ttl now = transact (do
  validate_service_lease owner ttl
  free ← gets (λ db. is_free now db.lease)
  if free
      then (do
        modify (λ db. record db {
          lease = some (record {
            owner_token = owner;
            fence = taken_fence db.lease;
            expires_at = now + ttl;
          });
        })
        lease ← gets (λ db. db.lease)
        commit lease)
      else commit none)

-- id = 1 AND owner_token = ? AND fence = ? AND expires_at > ?
unfoldable pub is_held : Bytes → ℕ → ℕ → Option ServiceLease → Bool
is_held owner fence now none = false
is_held owner fence now (some l) =
    text_eq l.owner_token owner && (l.fence == fence && ltb now l.expires_at)

abbrev pub expire_at : ℕ → Option ServiceLease → Option ServiceLease
expire_at t none = none
expire_at t (some l) = some (record l { expires_at = t })

unfoldable pub renew_service_lease : Bytes → ℕ → ℕ → ℕ → Db → Result Bool × Db
renew_service_lease owner fence ttl now = transact (do
  validate_service_lease owner ttl
  require (leb 1 fence) service_lease_fence
  held ← gets (λ db. is_held owner fence now db.lease)
  modify (λ db. record db { lease = if held then expire_at (now + ttl) db.lease else db.lease })
  commit held)

unfoldable pub release_service_lease : Bytes → ℕ → ℕ → Db → Result Bool × Db
release_service_lease owner fence now = transact (do
  validate_service_lease_term owner fence
  held ← gets (λ db. is_held owner fence now db.lease)
  modify (λ db. record db { lease = if held then expire_at now db.lease else db.lease })
  commit held)

-- The row's owner is `owner` and it has not expired, whatever its fence.
unfoldable pub is_owned : Bytes → ℕ → Option ServiceLease → Bool
is_owned owner now none = false
is_owned owner now (some l) = text_eq l.owner_token owner && ltb now l.expires_at

unfoldable pub service_lease_current : Bytes → Option ℕ → ℕ → Db → Result Bool × Db
service_lease_current owner none now = transact (do
  validate_service_lease_owner owner
  owned ← gets (λ db. is_owned owner now db.lease)
  commit owned)
service_lease_current owner (some fence) now = transact (do
  validate_service_lease_owner owner
  require (leb 1 fence) service_lease_fence
  held ← gets (λ db. is_held owner fence now db.lease)
  commit held)

unfoldable pub current_service_lease : Bytes → ℕ → Db → Result (Option ServiceLease) × Db
current_service_lease owner now = transact (do
  validate_service_lease_owner owner
  owned ← gets (λ db. is_owned owner now db.lease)
  lease ← gets (λ db. db.lease)
  commit (if owned then lease else none))

unfoldable pub service_lease_current_tx : Bytes → ℕ → ℕ → Tx Bool
service_lease_current_tx owner fence now = do
  validate_service_lease_term owner fence
  gets (λ db. is_held owner fence now db.lease)

unfoldable pub require_service_lease_tx : Bytes → ℕ → ℕ → Tx (Unit {0})
require_service_lease_tx owner fence now = do
  current ← service_lease_current_tx owner fence now
  require current service_lease_lost
