-- ===== src/Store/Frame/Reviews.antt =====
-- The review operations keep whatever respects the writes of `Frame`.
use oc_review_bot.Common.{
  ℕ, ◌+◌, ◌≡◌, inl, inr, Bool, true, not, ◌&&◌, ◌||◌, Option, none, some, List, [], Bytes, arith,
  ltb, ◌==◌, if◌then◌else◌, is_empty, Bool-cases,
}
use oc_review_bot.Store.Schema.{
  Db, Review, ReviewStatus, Publication, is_running, is_claimable, rfc3339,
  reconciliation_retry_delay, review_not_ready, is_pending,
}
use oc_review_bot.Store.Table.{count_where, update_where}
use oc_review_bot.Store.Tx.{◌>>=◌, ◌>>◌, modify, gets, pure, commit, require}
use oc_review_bot.Store.Keeps.{After, Keeps, KeepsCall, Keeps-gets_bind, keeps_rules}
use oc_review_bot.Store.Reviews.{
  update_reviews, require_review_mutation, claimed_or_missing, claim_found, is_claimed_by,
  review_lease_current_tx, require_review_lease_tx, claim_review, claim_review_by_id,
  claim_next_queued_review, recover_interrupted_reviews, has_recent_send, set_review_execution,
  set_review_revision, finish_review_reconciliation_required, is_fully_posted, finish_review_done,
  finish_review_failed, requeue_review, at_least_second,
}
use oc_review_bot.Store.Frame.{Frame, ReviewWrite, ReviewDone}
use oc_review_bot.Store.Frame.Lease.{Keeps-require_service_lease}

module _ {P : Db → Type 0} (frame : Frame P) where
  pub Keeps-update_reviews :
      (test : Review → Bool) (f : Review → Review)
      → ((r : Review) → test r ≡ true → ReviewWrite r (f r))
      → Keeps P (update_reviews test f)
  unfolding update_reviews ◌>>=◌ gets modify pure
  Keeps-update_reviews test f w = record { at = λ db h. frame.reviews test f db w h }

  pub Keeps-review_mutation : (n : ℕ) → Keeps P (require_review_mutation n)
  unfolding require_review_mutation
  Keeps-review_mutation n = search keeps_rules

  module _ (owner : Bytes) (fence now : ℕ) where
    pub Keeps-require_review_lease :
        (id generation : ℕ) → Keeps P (require_review_lease_tx owner fence now id generation)
    unfolding require_review_lease_tx review_lease_current_tx
    Keeps-require_review_lease id generation =
        search (keeps_rules, Keeps-require_service_lease frame) depth 12

-- The writes of the operations, row by row.
module _ (owner : Bytes) (fence now : ℕ) where
  claim_write :
      (id : ℕ) (held : Bool) (r : Review)
      → (r.id == id && (is_claimable r.status && held)) ≡ true
      → ReviewWrite r (record r {
        status = ReviewStatus.running;
        started_at = some (rfc3339 now);
        next_attempt_at = none;
        service_lease_owner = owner;
        claim_fence = fence;
        execution_generation = r.execution_generation + 1;
      })
  claim_write id held r h = ground arith

  recover_write :
      (publications : List Publication) (r : Review)
      → (is_running r.status
          && (ltb r.claim_fence fence
              && (not r.publication_prepared
                  || not (has_recent_send owner fence now r.id publications))))
        ≡ true
      → ReviewWrite r (record r {
        status = ReviewStatus.queued;
        started_at = none;
        next_attempt_at = none;
        service_lease_owner = [];
      })
  recover_write publications r h = ground arith

  module _ (id generation : ℕ) (r : Review)
      (h : is_claimed_by owner fence now id generation r ≡ true) where
    execution_write :
        (model : Bytes) (key_id : ℕ)
        → ReviewWrite r (record r { model = model; zen_key_id = key_id })
    unfolding is_claimed_by
    execution_write model key_id = ground arith

    revision_write :
        (repo_full sha revision : Bytes)
        → ReviewWrite r (record r {
          repo_full = if is_empty repo_full then r.repo_full else repo_full;
          head_sha = sha;
          head_revision = revision;
        })
    unfolding is_claimed_by
    revision_write repo_full sha revision = ground arith

    reconciliation_write :
        (text : Bytes)
        → ReviewWrite r (record r {
          status = ReviewStatus.reconciliation_required;
          error = text;
          finished_at = some (rfc3339 now);
          next_attempt_at = some (rfc3339 (now + reconciliation_retry_delay));
          service_lease_owner = [];
        })
    unfolding is_claimed_by
    reconciliation_write text = ground arith

    failure_write :
        (text : Bytes)
        → ReviewWrite r (record r {
          status = ReviewStatus.failed;
          error = text;
          finished_at = some (rfc3339 now);
        })
    unfolding is_claimed_by
    failure_write text = ground arith

    requeue_write :
        (retry_after : ℕ)
        → ReviewWrite r (record r {
          status = ReviewStatus.queued;
          started_at = none;
          next_attempt_at = some (rfc3339 (now + at_least_second retry_after));
          service_lease_owner = [];
        })
    unfolding is_claimed_by
    requeue_write retry_after = ground arith

    pub prepared_write :
        (summary_md : Bytes)
        → ReviewWrite r (record r { summary_md = summary_md; publication_prepared = true })
    unfolding is_claimed_by
    prepared_write summary_md = ground arith

  done_write :
      (id generation : ℕ) (publications : List Publication) (r : Review)
      → (is_claimed_by owner fence now id generation r
          && (r.publication_prepared && is_fully_posted r.id publications))
        ≡ true
      → ReviewDone publications r
          (record r { status = ReviewStatus.done; finished_at = some (rfc3339 now) })
  unfolding is_claimed_by
  done_write id generation publications r h = ground arith

ruleset review_rules = (
  keeps_rules, Keeps-require_service_lease, Keeps-update_reviews, Keeps-review_mutation,
  Keeps-require_review_lease, claim_write, recover_write, execution_write, revision_write,
  reconciliation_write, failure_write, requeue_write,
)

module _ {P : Db → Type 0} (frame : Frame P) (owner : Bytes) (fence now : ℕ) where
  Keeps-claim_review : (id : ℕ) → Keeps P (claim_review owner fence now id)
  unfolding claim_review
  Keeps-claim_review id = search review_rules depth 12

  pub claim_review_by_id-keeps : (id : ℕ) → KeepsCall P (claim_review_by_id owner fence now id)
  unfolding claim_review_by_id
  claim_review_by_id-keeps id = search (review_rules, Keeps-claim_review) depth 12

  pub recover_interrupted_reviews-keeps : KeepsCall P (recover_interrupted_reviews owner fence now)
  unfolding recover_interrupted_reviews
  recover_interrupted_reviews-keeps = search review_rules depth 12

  module _ (id generation : ℕ) where
    pub set_review_execution-keeps :
        (model : Bytes) (key_id : ℕ)
        → KeepsCall P (set_review_execution owner fence now id generation model key_id)
    unfolding set_review_execution
    set_review_execution-keeps model key_id = search review_rules depth 12

    pub set_review_revision-keeps :
        (repo_full sha revision : Bytes)
        → KeepsCall P (set_review_revision owner fence now id generation repo_full sha revision)
    unfolding set_review_revision
    set_review_revision-keeps repo_full sha revision = search review_rules depth 12

    pub finish_review_reconciliation_required-keeps :
        (text : Bytes)
        → KeepsCall P (finish_review_reconciliation_required owner fence now id generation text)
    unfolding finish_review_reconciliation_required
    finish_review_reconciliation_required-keeps text = search review_rules depth 12

    pub finish_review_failed-keeps :
        (text : Bytes) → KeepsCall P (finish_review_failed owner fence now id generation text)
    unfolding finish_review_failed
    finish_review_failed-keeps text = search review_rules depth 12

  Keeps-claimed_or_missing : (r : Option Review) → Keeps P (claimed_or_missing owner fence now r)
  Keeps-claimed_or_missing none = search review_rules depth 12
  Keeps-claimed_or_missing (some r) = search review_rules depth 12

  Keeps-claim_found : (r : Option Review) → Keeps P (claim_found owner fence now r)
  Keeps-claim_found none = search review_rules depth 12
  Keeps-claim_found (some r) =
      search (review_rules, Keeps-claim_review, Keeps-claimed_or_missing) depth 12

  pub claim_next_queued_review-keeps : KeepsCall P (claim_next_queued_review owner fence now)
  unfolding claim_next_queued_review
  claim_next_queued_review-keeps = search (review_rules, Keeps-claim_found) depth 12

  module _ (id generation : ℕ) where
    After-completion :
        (db : Db)
        → P db
        → After P (
            (do
              rows ←
                  update_reviews
                    (λ r.
                      is_claimed_by owner fence now id generation r
                      && (r.publication_prepared && is_fully_posted r.id db.publications))
                    (λ r. record r { status = ReviewStatus.done; finished_at = some (rfc3339 now) })
              require (rows == 1) review_not_ready
              commit tt)
              db)
    unfolding update_reviews ◌>>=◌ gets modify pure require commit
    After-completion db h =
        elim (Bool-cases (
          count_where
            (λ r.
              is_claimed_by owner fence now id generation r
              && (r.publication_prepared && is_fully_posted r.id db.publications))
            db.reviews
          == 1)) [
            | inl e ↦ rw e (
                frame.completion _ _ db (done_write owner fence now id generation db.publications)
                  h)
            | inr e ↦ rw e tt
          ]

    Keeps-completion : Keeps P (do
      publications ← gets (λ db. db.publications)
      rows ←
          update_reviews
            (λ r.
              is_claimed_by owner fence now id generation r
              && (r.publication_prepared && is_fully_posted r.id publications))
            (λ r. record r { status = ReviewStatus.done; finished_at = some (rfc3339 now) })
      require (rows == 1) review_not_ready
      commit tt)
    Keeps-completion = Keeps-gets_bind _ _ After-completion

    pub finish_review_done-keeps : KeepsCall P (finish_review_done owner fence now id generation)
    unfolding finish_review_done
    finish_review_done-keeps = search (review_rules, Keeps-completion) depth 12

    Keeps-release_pending : Keeps P (
        modify (λ db. record db {
          publications =
              update_where
                (λ p. p.review_id == id && is_pending p.status)
                (λ p. record p { service_lease_owner = []; service_lease_fence = 0 })
                db.publications;
        }))
    unfolding modify
    Keeps-release_pending = record {
      at = λ db h. frame.publications _ _ db (λ p q. ground arith) h;
    }

    pub requeue_review-keeps :
        (retry_after : ℕ) → KeepsCall P (requeue_review owner fence now id generation retry_after)
    unfolding requeue_review
    requeue_review-keeps retry_after = search (review_rules, Keeps-release_pending) depth 12
