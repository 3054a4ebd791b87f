-- ===== src/Store/Frame/Nudges.antt =====
-- The notification operations keep whatever respects the writes of `Frame`.
use oc_review_bot.Common.{
  ℕ, ◌+◌, ◌≡◌, refl, inl, inr, Bool, true, not, ◌&&◌, Option, none, some, [], Bytes, arith, ltb,
  ◌==◌, Bool-cases, any,
}
use oc_review_bot.Store.Schema.{
  Db, Nudge, NudgeStatus, posting, rfc3339, lease_deadline, reconciliation_retry_delay, is_posting,
  is_waiting, is_due, is_some,
}
use oc_review_bot.Store.Tx.{◌>>=◌, modify, gets, pure, commit}
use oc_review_bot.Store.Keeps.{Keeps, KeepsCall, keeps_rules}
use oc_review_bot.Store.Reviews.{at_least_second}
use oc_review_bot.Store.Nudges.{
  nudge_conflicts, insert_nudge, create_nudge_once, update_nudges, require_nudge_mutation,
  found_nudge, Claim, is_nudge_due, claim_nudge, claim_nudge_by_id, claimed_or_missing, claim_found,
  claim_next_queued_nudge, is_posted_by, require_nudge_lease_tx, set_nudge_repository,
  mark_nudge_sending, recover_interrupted_nudges, mark_nudge_posted, to_reconcile, requeue_nudge,
  finish_nudge_failed, mark_nudge_reconciliation_required,
}
use oc_review_bot.Store.Frame.{Frame, NudgeWrite}
use oc_review_bot.Store.Frame.Lease.{Keeps-require_service_lease}
use oc_review_bot.Store.Frame.Reviews.{Keeps-review_mutation}
use oc_review_bot.Store.Frame.Intake.{Keeps-admit_delivery}

module _ {P : Db → Type 0} (frame : Frame P) where
  Keeps-update_nudges :
      (test : Nudge → Bool) (f : Nudge → Nudge)
      → ((n : Nudge) → test n ≡ true → NudgeWrite n (f n))
      → Keeps P (update_nudges test f)
  unfolding update_nudges ◌>>=◌ gets modify pure
  Keeps-update_nudges test f w = record { at = λ db h. frame.nudges test f db w h }

  Keeps-nudge_mutation : (n : ℕ) → Keeps P (require_nudge_mutation n)
  unfolding require_nudge_mutation
  Keeps-nudge_mutation n = search keeps_rules

  Keeps-found_nudge : (n : Option Nudge) → Keeps P (found_nudge n)
  Keeps-found_nudge none = search keeps_rules
  Keeps-found_nudge (some n) = search keeps_rules

  Keeps-insert_nudge : (n : Nudge) (token : Bytes) (now : ℕ) → Keeps P (insert_nudge n token now)
  unfolding insert_nudge ◌>>=◌ gets modify commit
  Keeps-insert_nudge n token now = record {
    at = λ db h. elim (Bool-cases (any (nudge_conflicts n) db.nudges)) [
      | inl e ↦ rw e h
      | inr e ↦ rw e (frame.new_nudge _ db refl refl h)
    ];
  }

  pub create_nudge_once-keeps :
      (n : Nudge) (delivery_id token : Bytes) (now : ℕ)
      → KeepsCall P (create_nudge_once n delivery_id token now)
  unfolding create_nudge_once
  create_nudge_once-keeps n delivery_id token now =
      search (keeps_rules, Keeps-admit_delivery, Keeps-insert_nudge) depth 14

-- The writes of the operations, row by row.
module _ (owner : Bytes) (fence now : ℕ) where
  claim_write :
      (id : ℕ) (held : Bool) (n : Nudge)
      → (n.id == id && (is_waiting n.status && (is_nudge_due owner fence now n && held))) ≡ true
      → NudgeWrite n (record n {
        status = posting;
        execution_generation = n.execution_generation + 1;
        next_attempt_at = none;
        service_lease_owner = owner;
        claim_fence = fence;
      })
  claim_write id held n h = ground arith

  unsent_write :
      (n : Nudge)
      → (is_posting n.status && (ltb n.claim_fence fence && not (is_some n.send_started_at))) ≡ true
      → NudgeWrite n (record n {
        status = NudgeStatus.queued;
        next_attempt_at = none;
        service_lease_owner = [];
        send_started_at = none;
      })
  unsent_write n h = ground arith

  sent_write :
      (n : Nudge)
      → (is_posting n.status
          && (ltb n.claim_fence fence
              && (is_some n.send_started_at && is_due (lease_deadline now) n.send_started_at)))
        ≡ true
      → NudgeWrite n (record n {
        status = NudgeStatus.reconciliation_required;
        next_attempt_at = some (rfc3339 (now + reconciliation_retry_delay));
        service_lease_owner = [];
      })
  sent_write n h = ground arith

  module _ (id generation : ℕ) (n : Nudge)
      (h : is_posted_by owner fence now id generation n ≡ true) where
    repository_write : (repo_full : Bytes) → NudgeWrite n (record n { repo_full = repo_full })
    unfolding is_posted_by
    repository_write repo_full = ground arith

    sending_write : NudgeWrite n (record n { send_started_at = some now })
    unfolding is_posted_by
    sending_write = ground arith

    posted_write :
        (comment_id : ℕ)
        → NudgeWrite n (record n {
          status = NudgeStatus.posted;
          posted_comment_id = comment_id;
          posted_at = some (rfc3339 now);
          service_lease_owner = [];
          send_started_at = none;
        })
    unfolding is_posted_by
    posted_write comment_id = ground arith

    reconcile_write : NudgeWrite n (to_reconcile owner fence now n)
    unfolding is_posted_by to_reconcile
    reconcile_write = ground arith

    requeue_write :
        (retry_after : ℕ)
        → NudgeWrite n (record n {
          status = NudgeStatus.queued;
          next_attempt_at = some (rfc3339 (now + at_least_second retry_after));
          service_lease_owner = [];
        })
    unfolding is_posted_by
    requeue_write retry_after = ground arith

    failed_write :
        NudgeWrite n (record n {
          status = NudgeStatus.failed;
          service_lease_owner = [];
          send_started_at = none;
        })
    unfolding is_posted_by
    failed_write = ground arith

ruleset nudge_rules = (
  keeps_rules, Keeps-require_service_lease, Keeps-update_nudges, Keeps-nudge_mutation,
  Keeps-review_mutation, Keeps-found_nudge, claim_write, unsent_write, sent_write, repository_write,
  sending_write, posted_write, reconcile_write, requeue_write, failed_write,
)

module _ {P : Db → Type 0} (frame : Frame P) (owner : Bytes) (fence now : ℕ) where
  Keeps-claim_nudge : (id : ℕ) → Keeps P (claim_nudge owner fence now id)
  unfolding claim_nudge
  Keeps-claim_nudge id = search nudge_rules depth 14

  pub claim_nudge_by_id-keeps : (id : ℕ) → KeepsCall P (claim_nudge_by_id owner fence now id)
  unfolding claim_nudge_by_id
  claim_nudge_by_id-keeps id = search (nudge_rules, Keeps-claim_nudge) depth 12

  Keeps-claimed_or_missing :
      (c : Option (Claim owner fence now)) → Keeps P (claimed_or_missing owner fence now c)
  Keeps-claimed_or_missing none = search nudge_rules depth 12
  Keeps-claimed_or_missing (some c) = search nudge_rules depth 12

  Keeps-claim_found : (n : Option Nudge) → Keeps P (claim_found owner fence now n)
  Keeps-claim_found none = search nudge_rules depth 12
  Keeps-claim_found (some n) =
      search (nudge_rules, Keeps-claim_nudge, Keeps-claimed_or_missing) depth 12

  pub claim_next_queued_nudge-keeps : KeepsCall P (claim_next_queued_nudge owner fence now)
  unfolding claim_next_queued_nudge
  claim_next_queued_nudge-keeps = search (nudge_rules, Keeps-claim_found) depth 12

  pub recover_interrupted_nudges-keeps : KeepsCall P (recover_interrupted_nudges owner fence now)
  unfolding recover_interrupted_nudges
  recover_interrupted_nudges-keeps = search nudge_rules depth 12

  module _ (id generation : ℕ) where
    Keeps-require_nudge_lease : Keeps P (require_nudge_lease_tx owner fence now id generation)
    unfolding require_nudge_lease_tx
    Keeps-require_nudge_lease = search nudge_rules depth 12

    pub set_nudge_repository-keeps :
        (repo_full : Bytes)
        → KeepsCall P (set_nudge_repository owner fence now id generation repo_full)
    unfolding set_nudge_repository
    set_nudge_repository-keeps repo_full = search (nudge_rules, Keeps-require_nudge_lease) depth 12

    pub mark_nudge_sending-keeps : KeepsCall P (mark_nudge_sending owner fence now id generation)
    unfolding mark_nudge_sending
    mark_nudge_sending-keeps = search (nudge_rules, Keeps-require_nudge_lease) depth 12

    pub mark_nudge_posted-keeps :
        (comment_id : ℕ) → KeepsCall P (mark_nudge_posted owner fence now id generation comment_id)
    unfolding mark_nudge_posted
    mark_nudge_posted-keeps comment_id = search (nudge_rules, Keeps-require_nudge_lease) depth 12

    pub requeue_nudge-keeps :
        (retry_after : ℕ) → KeepsCall P (requeue_nudge owner fence now id generation retry_after)
    unfolding requeue_nudge
    requeue_nudge-keeps retry_after = search (nudge_rules, Keeps-require_nudge_lease) depth 14

    pub finish_nudge_failed-keeps : KeepsCall P (finish_nudge_failed owner fence now id generation)
    unfolding finish_nudge_failed
    finish_nudge_failed-keeps = search (nudge_rules, Keeps-require_nudge_lease) depth 12

    pub mark_nudge_reconciliation_required-keeps :
        KeepsCall P (mark_nudge_reconciliation_required owner fence now id generation)
    unfolding mark_nudge_reconciliation_required
    mark_nudge_reconciliation_required-keeps =
        search (nudge_rules, Keeps-require_nudge_lease) depth 12
