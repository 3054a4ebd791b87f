-- ===== src/Store/History/Induction.antt =====
-- Whatever respects the writes of `Frame` holds after any history.
use oc_review_bot.Common.{ℕ, ◌≡◌, refl, true, arith, List, [], ◌∷◌, Bytes}
use oc_review_bot.Store.Schema.{Db}
use oc_review_bot.Store.Admission.{purge_deliveries_before}
use oc_review_bot.Store.History.{
  Work, Call, is_purge, NoPurge, perform, step, run, acquire_lease, renew_lease, release_lease,
  admit_review, admit_nudge, purge_deliveries, work, claim_review_by_id, claim_next_queued_review,
  recover_interrupted_reviews, set_review_execution, set_review_revision,
  prepare_review_publication, claim_publication_for_send, begin_publication_send,
  mark_publication_posted, mark_publication_reconciliation_required,
  finish_review_reconciliation_required, finish_review_done, finish_review_failed, requeue_review,
  claim_nudge_by_id, claim_next_queued_nudge, recover_interrupted_nudges, set_nudge_repository,
  mark_nudge_sending, mark_nudge_posted, requeue_nudge, finish_nudge_failed,
  mark_nudge_reconciliation_required,
}
use oc_review_bot.Store.Frame.{Frame, LeaseFrame, PurgeFrame}
use oc_review_bot.Store.Frame.Lease.{acquire-keeps, renew-keeps, release-keeps}
use oc_review_bot.Store.Frame.Reviews
use oc_review_bot.Store.Frame.Prepare
use oc_review_bot.Store.Frame.Publications
use oc_review_bot.Store.Frame.Intake
use oc_review_bot.Store.Frame.Nudges

module _ {P : Db → Type 0} (frame : Frame P) where
  pub perform-keeps :
      (owner : Bytes) (fence now : ℕ) (w : Work) (db : Db) → P db → P (perform owner fence now w db)
  unfolding perform
  perform-keeps owner fence now (claim_review_by_id id) =
      (Reviews.claim_review_by_id-keeps frame owner fence now id).at
  perform-keeps owner fence now claim_next_queued_review =
      (Reviews.claim_next_queued_review-keeps frame owner fence now).at
  perform-keeps owner fence now recover_interrupted_reviews =
      (Reviews.recover_interrupted_reviews-keeps frame owner fence now).at
  perform-keeps owner fence now (set_review_execution id g model key_id) =
      (Reviews.set_review_execution-keeps frame owner fence now id g model key_id).at
  perform-keeps owner fence now (set_review_revision id g repo_full sha revision) =
      (Reviews.set_review_revision-keeps frame owner fence now id g repo_full sha revision).at
  perform-keeps owner fence now (prepare_review_publication id g plan tokens) =
      (Prepare.prepare_review_publication-keeps frame owner fence now id g plan tokens).at
  perform-keeps owner fence now (claim_publication_for_send review_id g id) =
      (Publications.claim_publication_for_send-keeps frame owner fence now review_id g id).at
  perform-keeps owner fence now (begin_publication_send review_id g id) =
      (Publications.begin_publication_send-keeps frame owner fence now review_id g id).at
  perform-keeps owner fence now (mark_publication_posted review_id g id comment_id) =
      (Publications.mark_publication_posted-keeps frame owner fence now review_id g id
        comment_id).at
  perform-keeps owner fence now (mark_publication_reconciliation_required review_id g id) =
      (Publications.mark_publication_reconciliation_required-keeps frame owner fence now review_id g
        id).at
  perform-keeps owner fence now (finish_review_reconciliation_required id g text) =
      (Reviews.finish_review_reconciliation_required-keeps frame owner fence now id g text).at
  perform-keeps owner fence now (finish_review_done id g) =
      (Reviews.finish_review_done-keeps frame owner fence now id g).at
  perform-keeps owner fence now (finish_review_failed id g text) =
      (Reviews.finish_review_failed-keeps frame owner fence now id g text).at
  perform-keeps owner fence now (requeue_review id g retry_after) =
      (Reviews.requeue_review-keeps frame owner fence now id g retry_after).at
  perform-keeps owner fence now (claim_nudge_by_id id) =
      (Nudges.claim_nudge_by_id-keeps frame owner fence now id).at
  perform-keeps owner fence now claim_next_queued_nudge =
      (Nudges.claim_next_queued_nudge-keeps frame owner fence now).at
  perform-keeps owner fence now recover_interrupted_nudges =
      (Nudges.recover_interrupted_nudges-keeps frame owner fence now).at
  perform-keeps owner fence now (set_nudge_repository id g repo_full) =
      (Nudges.set_nudge_repository-keeps frame owner fence now id g repo_full).at
  perform-keeps owner fence now (mark_nudge_sending id g) =
      (Nudges.mark_nudge_sending-keeps frame owner fence now id g).at
  perform-keeps owner fence now (mark_nudge_posted id g comment_id) =
      (Nudges.mark_nudge_posted-keeps frame owner fence now id g comment_id).at
  perform-keeps owner fence now (requeue_nudge id g retry_after) =
      (Nudges.requeue_nudge-keeps frame owner fence now id g retry_after).at
  perform-keeps owner fence now (finish_nudge_failed id g) =
      (Nudges.finish_nudge_failed-keeps frame owner fence now id g).at
  perform-keeps owner fence now (mark_nudge_reconciliation_required id g) =
      (Nudges.mark_nudge_reconciliation_required-keeps frame owner fence now id g).at

module _ {P : Db → Type 0} (frame : Frame P) (leases : LeaseFrame P) where
  -- A step keeps the predicate, if a purge does.
  pub step-keeps_when :
      (c : ℕ × Call) (db : Db) → (is_purge c.1 ≡ true → P db → P (step c db)) → P db → P (step c db)
  unfolding step
  step-keeps_when (now, acquire_lease owner ttl) db purged =
      (acquire-keeps leases owner ttl now).at db
  step-keeps_when (now, renew_lease owner fence ttl) db purged =
      (renew-keeps leases owner fence ttl now).at db
  step-keeps_when (now, release_lease owner fence) db purged =
      (release-keeps leases owner fence now).at db
  step-keeps_when (now, admit_review r delivery_id admission token) db purged =
      (Intake.create_review_with_admission-keeps frame r delivery_id admission token now).at db
  step-keeps_when (now, admit_nudge n delivery_id token) db purged =
      (Nudges.create_nudge_once-keeps frame n delivery_id token now).at db
  step-keeps_when (now, purge_deliveries cutoff) db purged = purged refl
  step-keeps_when (now, work owner fence w) db purged = perform-keeps frame owner fence now w db

  -- The same over a history without a purge.
  pub run_unpurged-keeps : (cs : List (ℕ × Call)) (db : Db) → NoPurge cs → P db → P (run cs db)
  unfolding run
  run_unpurged-keeps [] db n h = h
  run_unpurged-keeps (c ∷ cs) db n h =
      run_unpurged-keeps cs (step c db) n.1 (step-keeps_when c db (λ p. ground arith) h)

module _ {P : Db → Type 0} (frame : Frame P) (leases : LeaseFrame P) (purges : PurgeFrame P) where
  purge-keeps : (c : ℕ × Call) (db : Db) → is_purge c.1 ≡ true → P db → P (step c db)
  unfolding step purge_deliveries_before
  purge-keeps (now, purge_deliveries cutoff) db e h = purges.purge _ db h
  purge-keeps (now, acquire_lease owner ttl) db e h = ground arith
  purge-keeps (now, renew_lease owner fence ttl) db e h = ground arith
  purge-keeps (now, release_lease owner fence) db e h = ground arith
  purge-keeps (now, admit_review r delivery_id admission token) db e h = ground arith
  purge-keeps (now, admit_nudge n delivery_id token) db e h = ground arith
  purge-keeps (now, work owner fence w) db e h = ground arith

  pub step-keeps : (c : ℕ × Call) (db : Db) → P db → P (step c db)
  step-keeps c db = step-keeps_when frame leases c db (purge-keeps c db)

  pub run-keeps : (cs : List (ℕ × Call)) (db : Db) → P db → P (run cs db)
  unfolding run
  run-keeps [] db h = h
  run-keeps (c ∷ cs) db h = run-keeps cs (step c db) (step-keeps c db h)
