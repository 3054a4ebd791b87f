-- ===== src/Store/History.antt =====
-- Histories of the store: every call that writes to the tables of the queues, by any number of
-- processes, in any order, each at a reading of the clock.
pub mod Induction
use oc_review_bot.Common.{ℕ, ◌≡◌, Bool, true, false, List, [], ◌∷◌, Bytes}
use oc_review_bot.Store.Schema.{Db, Review, ReviewAdmission, PublicationPlan, Nudge}
use oc_review_bot.Store.Lease.{
  acquire_service_lease_with_fence, renew_service_lease, release_service_lease,
}
use oc_review_bot.Store.Reviews
use oc_review_bot.Store.Publications
use oc_review_bot.Store.Publications.{Tokens}
use oc_review_bot.Store.Admission.{create_review_with_admission, purge_deliveries_before}
use oc_review_bot.Store.Nudges

-- The calls that a worker makes under its service lease term.
pub data Work : Type 0 where
  claim_review_by_id : ℕ → Work
  claim_next_queued_review : Work
  recover_interrupted_reviews : Work
  set_review_execution : ℕ → ℕ → Bytes → ℕ → Work
  set_review_revision : ℕ → ℕ → Bytes → Bytes → Bytes → Work
  prepare_review_publication : ℕ → ℕ → PublicationPlan → Tokens → Work
  claim_publication_for_send : ℕ → ℕ → ℕ → Work
  begin_publication_send : ℕ → ℕ → ℕ → Work
  mark_publication_posted : ℕ → ℕ → ℕ → ℕ → Work
  mark_publication_reconciliation_required : ℕ → ℕ → ℕ → Work
  finish_review_reconciliation_required : ℕ → ℕ → Bytes → Work
  finish_review_done : ℕ → ℕ → Work
  finish_review_failed : ℕ → ℕ → Bytes → Work
  requeue_review : ℕ → ℕ → ℕ → Work
  claim_nudge_by_id : ℕ → Work
  claim_next_queued_nudge : Work
  recover_interrupted_nudges : Work
  set_nudge_repository : ℕ → ℕ → Bytes → Work
  mark_nudge_sending : ℕ → ℕ → Work
  mark_nudge_posted : ℕ → ℕ → ℕ → Work
  requeue_nudge : ℕ → ℕ → ℕ → Work
  finish_nudge_failed : ℕ → ℕ → Work
  mark_nudge_reconciliation_required : ℕ → ℕ → Work

pub data Call : Type 0 where
  acquire_lease : Bytes → ℕ → Call
  renew_lease : Bytes → ℕ → ℕ → Call
  release_lease : Bytes → ℕ → Call
  admit_review : Review → Bytes → ReviewAdmission → Bytes → Call
  admit_nudge : Nudge → Bytes → Bytes → Call
  purge_deliveries : ℕ → Call
  work : Bytes → ℕ → Work → Call

abbrev pub is_purge : Call → Bool
is_purge (purge_deliveries cutoff) = true
is_purge _ = false

-- No old delivery is purged.
abbrev pub NoPurge : List (ℕ × Call) → Type 0
NoPurge [] = Unit
NoPurge ((now, c) ∷ cs) = (is_purge c ≡ false) × NoPurge cs

module _ (owner : Bytes) (fence now : ℕ) where
  -- What a worker's call leaves in the database.
  unfoldable pub perform : Work → Db → Db
  perform (claim_review_by_id id) db = (Reviews.claim_review_by_id owner fence now id db).1
  perform claim_next_queued_review db = (Reviews.claim_next_queued_review owner fence now db).1
  perform recover_interrupted_reviews db =
      (Reviews.recover_interrupted_reviews owner fence now db).1
  perform (set_review_execution id g model key_id) db =
      (Reviews.set_review_execution owner fence now id g model key_id db).1
  perform (set_review_revision id g repo_full sha revision) db =
      (Reviews.set_review_revision owner fence now id g repo_full sha revision db).1
  perform (prepare_review_publication id g plan tokens) db =
      (Publications.prepare_review_publication owner fence now id g plan tokens db).1
  perform (claim_publication_for_send review_id g id) db =
      (Publications.claim_publication_for_send owner fence now review_id g id db).1
  perform (begin_publication_send review_id g id) db =
      (Publications.begin_publication_send owner fence now review_id g id db).1
  perform (mark_publication_posted review_id g id comment_id) db =
      (Publications.mark_publication_posted owner fence now review_id g id comment_id db).1
  perform (mark_publication_reconciliation_required review_id g id) db =
      (Publications.mark_publication_reconciliation_required owner fence now review_id g id db).1
  perform (finish_review_reconciliation_required id g text) db =
      (Reviews.finish_review_reconciliation_required owner fence now id g text db).1
  perform (finish_review_done id g) db = (Reviews.finish_review_done owner fence now id g db).1
  perform (finish_review_failed id g text) db =
      (Reviews.finish_review_failed owner fence now id g text db).1
  perform (requeue_review id g retry_after) db =
      (Reviews.requeue_review owner fence now id g retry_after db).1
  perform (claim_nudge_by_id id) db = (Nudges.claim_nudge_by_id owner fence now id db).1
  perform claim_next_queued_nudge db = (Nudges.claim_next_queued_nudge owner fence now db).1
  perform recover_interrupted_nudges db = (Nudges.recover_interrupted_nudges owner fence now db).1
  perform (set_nudge_repository id g repo_full) db =
      (Nudges.set_nudge_repository owner fence now id g repo_full db).1
  perform (mark_nudge_sending id g) db = (Nudges.mark_nudge_sending owner fence now id g db).1
  perform (mark_nudge_posted id g comment_id) db =
      (Nudges.mark_nudge_posted owner fence now id g comment_id db).1
  perform (requeue_nudge id g retry_after) db =
      (Nudges.requeue_nudge owner fence now id g retry_after db).1
  perform (finish_nudge_failed id g) db = (Nudges.finish_nudge_failed owner fence now id g db).1
  perform (mark_nudge_reconciliation_required id g) db =
      (Nudges.mark_nudge_reconciliation_required owner fence now id g db).1

unfoldable pub step : ℕ × Call → Db → Db
step (now, acquire_lease owner ttl) db = (acquire_service_lease_with_fence owner ttl now db).1
step (now, renew_lease owner fence ttl) db = (renew_service_lease owner fence ttl now db).1
step (now, release_lease owner fence) db = (release_service_lease owner fence now db).1
step (now, admit_review r delivery_id admission token) db =
    (create_review_with_admission r delivery_id admission token now db).1
step (now, admit_nudge n delivery_id token) db =
    (Nudges.create_nudge_once n delivery_id token now db).1
step (now, purge_deliveries cutoff) db = (purge_deliveries_before cutoff db).1
step (now, work owner fence w) db = perform owner fence now w db

unfoldable pub run : List (ℕ × Call) → Db → Db
run [] db = db
run (c ∷ cs) db = run cs (step c db)
