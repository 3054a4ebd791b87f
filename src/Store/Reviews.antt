-- ===== src/Store/Reviews.antt =====
-- internal/store/reviews.go: claiming, recovering and finishing reviews. The operations of a worker
-- share its service lease term, `owner` and `fence`, and the reading `now` of the clock.
use oc_review_bot.Common.{
  ℕ, ◌+◌, Bool, not, ◌&&◌, ◌||◌, Option, none, some, List, [], ◌∷◌, Bytes, text_eq, is_empty, ltb,
  ◌==◌, if◌then◌else◌, any,
}
use oc_review_bot.Store.Schema.{
  Db, Review, ReviewStatus, Publication, queued, running, done, failed, not_found,
  review_not_queued, review_lease_lost, review_not_ready, service_lease_required, second, rfc3339,
  lease_deadline, reconciliation_retry_delay, is_running, is_done, is_claimable, is_due, is_sending,
  is_posted, is_summary, is_pending,
}
use oc_review_bot.Store.Table.{update_where, count_where, first_where}
use oc_review_bot.Store.Tx.{
  Result, Tx, ok, err, ◌>>=◌, ◌>>◌, pure, rollback, gets, modify, require, commit, transact,
}
use oc_review_bot.Store.Lease.{is_held, is_valid_owner, require_service_lease_tx}

abbrev pub review_with_id : ℕ → Review → Bool
review_with_id id r = r.id == id

-- UPDATE reviews SET f WHERE test, with RowsAffected
unfoldable pub update_reviews : (Review → Bool) → (Review → Review) → Tx ℕ
update_reviews test f = do
  rows ← gets (λ db. count_where test db.reviews)
  modify (λ db. record db { reviews = update_where test f db.reviews })
  pure rows

-- `requireReviewMutation`
unfoldable pub require_review_mutation : ℕ → Tx (Unit {0})
require_review_mutation rows = require (not (rows == 0)) review_lease_lost

-- SELECT ... ORDER BY created_at, id LIMIT 1
abbrev pub is_before : Review → Review → Bool
is_before r q = ltb r.created_at q.created_at || r.created_at == q.created_at && ltb r.id q.id

abbrev pub keep_older : Review → Option Review → Option Review
keep_older r none = some r
keep_older r (some q) = if is_before r q then some r else some q

unfoldable pub oldest_where : (Review → Bool) → List Review → Option Review
oldest_where test [] = none
oldest_where test (r ∷ rs) =
    let rest = oldest_where test rs in if test r then keep_older r rest else rest

-- The summary is posted, and no publication of the review is not posted.
unfoldable pub is_fully_posted : ℕ → List Publication → Bool
is_fully_posted review_id publications =
    any (λ p. p.review_id == review_id && (is_summary p.kind && is_posted p.status)) publications
    && not (any (λ p. p.review_id == review_id && not (is_posted p.status)) publications)

abbrev pub at_least_second : ℕ → ℕ
at_least_second retry_after = if ltb retry_after second then second else retry_after

module _ (owner : Bytes) (fence now : ℕ) where
  abbrev pub lease_is_held : Db → Bool
  lease_is_held db = is_held owner fence now db.lease

  -- id = ? AND status = 'running' AND execution_generation = ? AND service_lease_owner = ? AND
  -- claim_fence = ?
  unfoldable pub is_claimed_by : ℕ → ℕ → Review → Bool
  is_claimed_by id generation r =
      r.id == id
      && (is_running r.status
          && (r.execution_generation == generation
              && (text_eq r.service_lease_owner owner && r.claim_fence == fence)))

  unfoldable pub review_lease_current_tx : ℕ → ℕ → Tx Bool
  review_lease_current_tx id generation =
      gets (λ db. lease_is_held db && count_where (is_claimed_by id generation) db.reviews == 1)

  unfoldable pub require_review_lease_tx : ℕ → ℕ → Tx (Unit {0})
  require_review_lease_tx id generation = do
    require_service_lease_tx owner fence now
    current ← review_lease_current_tx id generation
    require current review_lease_lost

  unfoldable pub review_lease_current : ℕ → ℕ → Db → Result Bool × Db
  review_lease_current id generation =
      transact (do current ← review_lease_current_tx id generation; commit current)

  unfoldable pub review_completion_lease_current : ℕ → ℕ → Db → Result Bool × Db
  review_completion_lease_current id generation = transact (do
    current ← gets (λ db.
        lease_is_held db
        && count_where
            (λ r.
              r.id == id
              && ((is_running r.status || is_done r.status)
                  && (r.execution_generation == generation
                      && (text_eq r.service_lease_owner owner && r.claim_fence == fence))))
            db.reviews
          == 1)
    commit current)

  -- `claimReview`: UPDATE ... WHERE id = ? AND status IN (...) AND EXISTS (the lease)
  unfoldable pub claim_review : ℕ → Tx (Option Review)
  claim_review id = do
    held ← gets lease_is_held
    rows ←
        update_reviews (λ r. r.id == id && (is_claimable r.status && held))
          (λ r. record r {
            status = running;
            started_at = some (rfc3339 now);
            next_attempt_at = none;
            service_lease_owner = owner;
            claim_fence = fence;
            execution_generation = r.execution_generation + 1;
          })
    claimed ← gets (λ db. first_where (review_with_id id) db.reviews)
    pure (if rows == 0 then none else claimed)

  unfoldable pub claim_review_by_id : ℕ → Db → Result (Option Review) × Db
  claim_review_by_id id =
      transact
        (do require_service_lease_tx owner fence now; claimed ← claim_review id; commit claimed)

  abbrev pub is_ready : Review → Bool
  is_ready r = is_claimable r.status && is_due (rfc3339 now) r.next_attempt_at

  abbrev pub claimed_or_missing : Option Review → Tx (Result Review)
  claimed_or_missing (some r) = commit r
  claimed_or_missing none = do require_service_lease_tx owner fence now; rollback not_found

  abbrev pub claim_found : Option Review → Tx (Result Review)
  claim_found (some r) = do claimed ← claim_review r.id; claimed_or_missing claimed
  claim_found none = do require_service_lease_tx owner fence now; rollback not_found

  unfoldable pub claim_next_queued_review : Db → Result Review × Db
  claim_next_queued_review = transact (do
    require (is_valid_owner owner) service_lease_required
    require_service_lease_tx owner fence now
    found ← gets (λ db. oldest_where (λ r. is_ready r && lease_is_held db) db.reviews)
    claim_found found)

  -- A send of the review is recorded that began after the handoff deadline.
  abbrev pub has_recent_send : ℕ → List Publication → Bool
  has_recent_send review_id = any (λ p.
      p.review_id == review_id
      && (is_sending p.status && not (is_due (lease_deadline now) p.send_started_at)))

  unfoldable pub recover_interrupted_reviews : Db → Result ℕ × Db
  recover_interrupted_reviews = transact (do
    require_service_lease_tx owner fence now
    publications ← gets (λ db. db.publications)
    count ←
        update_reviews
          (λ r.
            is_running r.status
            && (ltb r.claim_fence fence
                && (not r.publication_prepared || not (has_recent_send r.id publications))))
          (λ r. record r {
            status = queued;
            started_at = none;
            next_attempt_at = none;
            service_lease_owner = [];
          })
    commit count)

  unfoldable pub set_review_execution : ℕ → ℕ → Bytes → ℕ → Db → Result (Unit {0}) × Db
  set_review_execution id generation model key_id = transact (do
    require_review_lease_tx id generation
    rows ←
        update_reviews (is_claimed_by id generation)
          (λ r. record r { model = model; zen_key_id = key_id })
    require_review_mutation rows
    commit tt)

  unfoldable pub set_review_revision : ℕ → ℕ → Bytes → Bytes → Bytes → Db → Result (Unit {0}) × Db
  set_review_revision id generation repo_full sha revision = transact (do
    require_review_lease_tx id generation
    rows ← update_reviews (is_claimed_by id generation) (λ r. record r {
      repo_full = if is_empty repo_full then r.repo_full else repo_full;
      head_sha = sha;
      head_revision = revision;
    })
    require_review_mutation rows
    commit tt)

  unfoldable pub set_head_sha : ℕ → ℕ → Bytes → Db → Result (Unit {0}) × Db
  set_head_sha id generation sha = set_review_revision id generation [] sha []

  unfoldable pub finish_review_reconciliation_required : ℕ → ℕ → Bytes → Db → Result (Unit {0}) × Db
  finish_review_reconciliation_required id generation text = transact (do
    require_review_lease_tx id generation
    rows ← update_reviews (is_claimed_by id generation) (λ r. record r {
      status = ReviewStatus.reconciliation_required;
      error = text;
      finished_at = some (rfc3339 now);
      next_attempt_at = some (rfc3339 (now + reconciliation_retry_delay));
      service_lease_owner = [];
    })
    require_review_mutation rows
    commit tt)

  unfoldable pub finish_review_done : ℕ → ℕ → Db → Result (Unit {0}) × Db
  finish_review_done id generation = transact (do
    require_review_lease_tx id generation
    publications ← gets (λ db. db.publications)
    rows ←
        update_reviews
          (λ r.
            is_claimed_by id generation r
            && (r.publication_prepared && is_fully_posted r.id publications))
          (λ r. record r { status = done; finished_at = some (rfc3339 now) })
    require (rows == 1) review_not_ready
    commit tt)

  unfoldable pub finish_review_failed : ℕ → ℕ → Bytes → Db → Result (Unit {0}) × Db
  finish_review_failed id generation text = transact (do
    require_review_lease_tx id generation
    rows ←
        update_reviews (is_claimed_by id generation)
          (λ r. record r { status = failed; error = text; finished_at = some (rfc3339 now) })
    require_review_mutation rows
    commit tt)

  unfoldable pub requeue_review : ℕ → ℕ → ℕ → Db → Result (Unit {0}) × Db
  requeue_review id generation retry_after = transact (do
    require_review_lease_tx id generation
    rows ← update_reviews (is_claimed_by id generation) (λ r. record r {
      status = queued;
      started_at = none;
      next_attempt_at = some (rfc3339 (now + at_least_second retry_after));
      service_lease_owner = [];
    })
    require_review_mutation rows
    modify (λ db. record db {
      publications =
          update_where (λ p. p.review_id == id && is_pending p.status)
            (λ p. record p { service_lease_owner = []; service_lease_fence = 0 }) db.publications;
    })
    commit tt)

  abbrev pub start_claimed : ℕ → Bytes → ℕ → Result (Option Review) × Db → Result (Unit {0}) × Db
  start_claimed id model key_id (err e, db) = (err e, db)
  start_claimed id model key_id (ok none, db) = (err review_not_queued, db)
  start_claimed id model key_id (ok (some r), db) =
      set_review_execution id r.execution_generation model key_id db

  unfoldable pub start_review : ℕ → Bytes → ℕ → Db → Result (Unit {0}) × Db
  start_review id model key_id db = start_claimed id model key_id (claim_review_by_id id db)
