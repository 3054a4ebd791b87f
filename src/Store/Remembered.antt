-- ===== src/Store/Remembered.antt =====
-- internal/store/reviews.go: a recorded delivery stays recorded until the deliveries are purged.
use oc_review_bot.Common.{ℕ, ◌≡◌, true, List, Bytes}
use oc_review_bot.Store.Schema.{Db}
use oc_review_bot.Store.Admission.{is_delivered}
use oc_review_bot.Store.Frame.{Frame, LeaseFrame}
use oc_review_bot.Store.History.{Call, NoPurge, run}
use oc_review_bot.Store.History.Induction.{run_unpurged-keeps}

module _ (delivery_id : Bytes) where
  IsRecorded : Db → Type 0
  IsRecorded db = is_delivered delivery_id db.deliveries ≡ true

  IsRecorded-frame : Frame IsRecorded
  unfolding IsRecorded
  IsRecorded-frame = record {
    reviews = λ test f db w h. h;
    completion = λ test f db w h. h;
    publications = λ test f db w h. h;
    nudges = λ test f db w h. h;
    findings = λ fs db h. h;
    deliveries = λ ds db e h. e delivery_id h;
    new_review = λ r db i q c h. h;
    new_publication = λ p db i q c h. h;
    new_nudge = λ m db i q h. h;
  }

  IsRecorded-leases : LeaseFrame IsRecorded
  unfolding IsRecorded
  IsRecorded-leases = record { lease = λ l db le h. h }

  -- A recorded delivery is so after any history without a purge.
  pub is_delivered-run :
      (cs : List (ℕ × Call)) (db : Db)
      → NoPurge cs
      → is_delivered delivery_id db.deliveries ≡ true
      → is_delivered delivery_id (run cs db).deliveries ≡ true
  unfolding IsRecorded
  is_delivered-run = run_unpurged-keeps IsRecorded-frame IsRecorded-leases
