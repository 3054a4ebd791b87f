-- ===== src/Store/Nudges.antt =====
-- internal/store/reviews.go: the outbox of access notifications.
use oc_review_bot.Common.{
  ℕ, ◌+◌, Bool, true, false, not, ◌&&◌, Option, none, some, [], ◌∷◌, ◌++◌, Bytes, codes, text_eq,
  is_empty, trim_space, to_lower, leb, ltb, ◌==◌, if◌then◌else◌, any,
}
use oc_review_bot.Store.Schema.{
  Db, Nudge, NudgeKind, registration, entitlement, NudgeStatus, NudgeCreateResult, RegisterNudge,
  posting, not_found, no_rows, nudge_lease_lost, nudge_reconcile, service_lease_required,
  invalid_argument, rfc3339, lease_deadline, reconciliation_retry_delay, is_posting, is_waiting,
  is_registration, is_due, is_some,
}
use oc_review_bot.Store.Table.{update_where, count_where, first_where, next_id}
use oc_review_bot.Store.Tx.{
  Result, Tx, ◌>>=◌, ◌>>◌, pure, rollback, gets, modify, require, commit, commit_with, transact,
}
use oc_review_bot.Store.Lease.{is_held, is_valid_owner, require_service_lease_tx}
use oc_review_bot.Store.Reviews.{require_review_mutation, at_least_second}
use oc_review_bot.Store.Admission.{admit_delivery}

abbrev pub no_nudge : NudgeCreateResult
no_nudge = record { created = false; duplicate_delivery = false }

-- `validateNudge`; the two kinds are the type's constructors.
unfoldable pub is_valid_nudge : Nudge → Bool
is_valid_nudge n =
    not (is_empty n.repo_full)
    && (leb 1 n.repository_id
        && (leb 1 n.pr_number
            && (leb 1 n.installation_id
                && (leb 1 n.requester_github_id && not (is_empty n.requester_login)))))

abbrev pub same_kind : NudgeKind → NudgeKind → Bool
same_kind registration registration = true
same_kind entitlement entitlement = true
same_kind _ _ = false

-- UNIQUE(repository_id, pr_number, requester_github_id, kind)
unfoldable pub nudge_conflicts : Nudge → Nudge → Bool
nudge_conflicts n m =
    m.repository_id == n.repository_id
    && (m.pr_number == n.pr_number
        && (m.requester_github_id == n.requester_github_id && same_kind m.kind n.kind))

-- The legacy table register_nudges has a row for the repository, pull request and login.
unfoldable pub is_legacy : Nudge → RegisterNudge → Bool
is_legacy n l =
    text_eq (to_lower l.repo_full) (to_lower n.repo_full)
    && (l.pr_number == n.pr_number
        && text_eq (to_lower l.login) (to_lower (to_lower (trim_space n.requester_login))))

abbrev pub queued_nudge : Nudge → Bytes → ℕ → ℕ → Nudge
queued_nudge n token now id = record {
  id = id;
  repo_full = n.repo_full;
  repository_id = n.repository_id;
  pr_number = n.pr_number;
  installation_id = n.installation_id;
  requester_github_id = n.requester_github_id;
  requester_login = to_lower (trim_space n.requester_login);
  kind = n.kind;
  publication_token = token;
  status = NudgeStatus.queued;
  execution_generation = 0;
  service_lease_owner = [];
  claim_fence = 0;
  posted_comment_id = 0;
  next_attempt_at = none;
  created_at = rfc3339 now;
  posted_at = none;
  send_started_at = none;
}

unfoldable pub insert_nudge : Nudge → Bytes → ℕ → Tx (Result NudgeCreateResult)
insert_nudge n token now = do
  conflict ← gets (λ db. any (nudge_conflicts n) db.nudges)
  if conflict then commit no_nudge else do
    modify (λ db. record db {
      nudges = db.nudges ++ queued_nudge n token now (next_id (λ m. m.id) db.nudges) ∷ [];
    })
    commit (record no_nudge { created = true })

unfoldable pub create_nudge_once : Nudge → Bytes → Bytes → ℕ → Db → Result NudgeCreateResult × Db
unfolding insert_nudge
create_nudge_once n delivery_id token now = transact (do
  require (is_valid_nudge n) invalid_argument
  fresh ← admit_delivery (trim_space delivery_id) (rfc3339 now)
  if not fresh then commit (record no_nudge { duplicate_delivery = true }) else do
    legacy ← gets (λ db. is_registration n.kind && any (is_legacy n) db.register_nudges)
    if legacy then commit no_nudge else insert_nudge n token now)

-- UPDATE access_nudges SET f WHERE test, with RowsAffected
unfoldable pub update_nudges : (Nudge → Bool) → (Nudge → Nudge) → Tx ℕ
update_nudges test f = do
  rows ← gets (λ db. count_where test db.nudges)
  modify (λ db. record db { nudges = update_where test f db.nudges })
  pure rows

unfoldable pub require_nudge_mutation : ℕ → Tx (Unit {0})
require_nudge_mutation rows = require (not (rows == 0)) nudge_lease_lost

abbrev nudge_with_id : ℕ → Nudge → Bool
nudge_with_id id n = n.id == id

-- The row of a query; a query without one fails with sql.ErrNoRows.
abbrev pub found_nudge : Option Nudge → Tx Nudge
found_nudge none = rollback no_rows
found_nudge (some n) = pure n

module _ (owner : Bytes) (fence now : ℕ) where
  -- What a claimed nudge returns: the row, and whether it was waiting for reconciliation.
  abbrev pub Claim : Type 0
  Claim = Nudge × Bool

  -- next_attempt_at and send_started_at allow a claim
  unfoldable pub is_nudge_due : Nudge → Bool
  is_nudge_due n =
      is_due (rfc3339 now) n.next_attempt_at && is_due (lease_deadline now) n.send_started_at

  abbrev pub claimed_nudge : Bool → ℕ → Option Nudge → Option Claim
  claimed_nudge reconciling rows none = none
  claimed_nudge reconciling rows (some n) = if rows == 0 then none else some (n, reconciling)

  abbrev pub was_reconciling : NudgeStatus → Bool
  was_reconciling NudgeStatus.reconciliation_required = true
  was_reconciling _ = false

  -- `claimNudge`
  unfoldable pub claim_nudge : ℕ → Tx (Option Claim)
  claim_nudge id = do
    found ← gets (λ db. first_where (nudge_with_id id) db.nudges)
    previous ← found_nudge found
    held ← gets (λ db. is_held owner fence now db.lease)
    rows ←
        update_nudges (λ n. n.id == id && (is_waiting n.status && (is_nudge_due n && held)))
          (λ n. record n {
            status = posting;
            execution_generation = n.execution_generation + 1;
            next_attempt_at = none;
            service_lease_owner = owner;
            claim_fence = fence;
          })
    claimed ← gets (λ db. first_where (nudge_with_id id) db.nudges)
    pure (claimed_nudge (was_reconciling previous.status) rows claimed)

  unfoldable pub claim_nudge_by_id : ℕ → Db → Result (Option Claim) × Db
  claim_nudge_by_id id =
      transact
        (do require_service_lease_tx owner fence now; claimed ← claim_nudge id; commit claimed)

  abbrev pub claimed_or_missing : Option Claim → Tx (Result Claim)
  claimed_or_missing (some c) = commit c
  claimed_or_missing none = do require_service_lease_tx owner fence now; rollback not_found

  abbrev pub claim_found : Option Nudge → Tx (Result Claim)
  claim_found (some n) = do claimed ← claim_nudge n.id; claimed_or_missing claimed
  claim_found none = do require_service_lease_tx owner fence now; rollback not_found

  -- ORDER BY id LIMIT 1: ids grow in order of insertion.
  unfoldable pub claim_next_queued_nudge : Db → Result Claim × Db
  claim_next_queued_nudge = transact (do
    require (is_valid_owner owner) service_lease_required
    require_service_lease_tx owner fence now
    found ← gets (λ db.
        first_where
          (λ n. is_waiting n.status && (is_nudge_due n && is_held owner fence now db.lease))
          db.nudges)
    claim_found found)

  -- id = ? AND status = 'posting' AND execution_generation = ? AND service_lease_owner = ? AND
  -- claim_fence = ?
  unfoldable pub is_posted_by : ℕ → ℕ → Nudge → Bool
  is_posted_by id generation n =
      n.id == id
      && (is_posting n.status
          && (n.execution_generation == generation
              && (text_eq n.service_lease_owner owner && n.claim_fence == fence)))

  unfoldable pub require_nudge_lease_tx : ℕ → ℕ → Tx (Unit {0})
  require_nudge_lease_tx id generation = do
    require_service_lease_tx owner fence now
    current ← gets (λ db. count_where (is_posted_by id generation) db.nudges == 1)
    require current nudge_lease_lost

  unfoldable pub nudge_lease_current : ℕ → ℕ → Db → Result Bool × Db
  nudge_lease_current id generation = transact (do
    current ← gets (λ db.
        is_held owner fence now db.lease && count_where (is_posted_by id generation) db.nudges == 1)
    commit current)

  unfoldable pub set_nudge_repository : ℕ → ℕ → Bytes → Db → Result (Unit {0}) × Db
  set_nudge_repository id generation repo_full = transact (do
    require_nudge_lease_tx id generation
    rows ← update_nudges (is_posted_by id generation) (λ n. record n { repo_full = repo_full })
    require_review_mutation rows
    commit tt)

  unfoldable pub mark_nudge_sending : ℕ → ℕ → Db → Result (Unit {0}) × Db
  unfolding require_nudge_mutation
  mark_nudge_sending id generation = transact (do
    require_nudge_lease_tx id generation
    rows ← update_nudges (is_posted_by id generation) (λ n. record n { send_started_at = some now })
    require_nudge_mutation rows
    commit tt)

  unfoldable pub recover_interrupted_nudges : Db → Result ℕ × Db
  recover_interrupted_nudges = transact (do
    require_service_lease_tx owner fence now
    count ←
        update_nudges
          (λ n. is_posting n.status && (ltb n.claim_fence fence && not (is_some n.send_started_at)))
          (λ n. record n {
            status = NudgeStatus.queued;
            next_attempt_at = none;
            service_lease_owner = [];
            send_started_at = none;
          })
    reconciled ←
        update_nudges
          (λ n.
            is_posting n.status
            && (ltb n.claim_fence fence
                && (is_some n.send_started_at && is_due (lease_deadline now) n.send_started_at)))
          (λ n. record n {
            status = NudgeStatus.reconciliation_required;
            next_attempt_at = some (rfc3339 (now + reconciliation_retry_delay));
            service_lease_owner = [];
          })
    commit (count + reconciled))

  unfoldable pub mark_nudge_posted : ℕ → ℕ → ℕ → Db → Result (Unit {0}) × Db
  unfolding require_nudge_mutation
  mark_nudge_posted id generation comment_id = transact (do
    require (leb 1 comment_id) invalid_argument
    require_nudge_lease_tx id generation
    rows ← update_nudges (is_posted_by id generation) (λ n. record n {
      status = NudgeStatus.posted;
      posted_comment_id = comment_id;
      posted_at = some (rfc3339 now);
      service_lease_owner = [];
      send_started_at = none;
    })
    require_nudge_mutation rows
    commit tt)

  unfoldable pub to_reconcile : Nudge → Nudge
  to_reconcile n = record n {
    status = NudgeStatus.reconciliation_required;
    next_attempt_at = some (rfc3339 (now + reconciliation_retry_delay));
    service_lease_owner = [];
  }

  unfoldable pub requeue_nudge : ℕ → ℕ → ℕ → Db → Result (Unit {0}) × Db
  unfolding require_nudge_mutation to_reconcile
  requeue_nudge id generation retry_after = transact (do
    require_nudge_lease_tx id generation
    found ← gets (λ db. first_where (is_posted_by id generation) db.nudges)
    n ← found_nudge found
    if is_some n.send_started_at
        then (do
          update_nudges (is_posted_by id generation) to_reconcile
          commit_with nudge_reconcile)
        else (do
          rows ← update_nudges (is_posted_by id generation) (λ m. record m {
            status = NudgeStatus.queued;
            next_attempt_at = some (rfc3339 (now + at_least_second retry_after));
            service_lease_owner = [];
          })
          require_nudge_mutation rows
          commit tt))

  unfoldable pub finish_nudge_failed : ℕ → ℕ → Db → Result (Unit {0}) × Db
  unfolding require_nudge_mutation
  finish_nudge_failed id generation = transact (do
    require_nudge_lease_tx id generation
    rows ← update_nudges (is_posted_by id generation) (λ n. record n {
      status = NudgeStatus.failed;
      service_lease_owner = [];
      send_started_at = none;
    })
    require_nudge_mutation rows
    commit tt)

  unfoldable pub mark_nudge_reconciliation_required : ℕ → ℕ → Db → Result (Unit {0}) × Db
  unfolding to_reconcile
  mark_nudge_reconciliation_required id generation = transact (do
    require_nudge_lease_tx id generation
    rows ← update_nudges (is_posted_by id generation) to_reconcile
    require_review_mutation rows
    commit tt)

-- `NudgeMarker`
unfoldable pub nudge_marker : Bytes → Bytes
nudge_marker token = codes "<!-- samik-bot:v1:nudge:" ++ (token ++ codes " -->")
