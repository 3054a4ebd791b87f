-- ===== src/Server/Webhook/Access.antt =====
-- internal/server/webhook.go: what a comment that the handler lets through does.
use oc_review_bot.Common.{
  ℕ, ◌≡◌, ◌∙◌, refl, ap, Bool, true, false, ◌||◌, inl, inr, [], ◌∷◌, ◌++◌, Bytes, arith, is_empty,
  trim_space, Bool-cases, if◌then◌else◌,
}
use oc_review_bot.Store.Schema.{
  Db, Review, ReviewAdmission, ReviewCreateResult, Nudge, NudgeCreateResult, NudgeKind,
  registration, entitlement,
}
use oc_review_bot.Store.Table.{next_id}
use oc_review_bot.Store.Tx.{Result, ok, err}
use oc_review_bot.Store.Admission.{
  create_review_with_admission, admitted, is_delivered, is_valid_identity,
}
use oc_review_bot.Store.Nudges.{create_nudge_once, is_valid_nudge}
use oc_review_bot.Store.Capacity.{
  was_created, says_both, never_both, reviews_lem, replay, invalid_lem, is_delivered-outcome,
}
use oc_review_bot.Store.Redelivery.{
  nudge_keeps_reviews, nudge_replay, invalid_nudge, is_delivered-nudge,
}
use oc_review_bot.Server.Webhook.{
  World, Answer, Handoff, nothing, db_failed, answer_nudge, answer_review,
}
use oc_review_bot.Server.Webhook.Gates.{is_enqueued}

abbrev pub is_failed : Answer → Bool
is_failed db_failed = true
is_failed _ = false

nudge_answers :
    (kind : NudgeKind) (w : World) (out : Result NudgeCreateResult × Db)
    → (is_enqueued (answer_nudge kind w out).0 ≡ false) × ((answer_nudge kind w out).2.db ≡ out.1)
nudge_answers kind w (err e, db) = (refl, refl)
nudge_answers registration w (ok result, db) = elim (Bool-cases result.duplicate_delivery) [
  | inl d ↦ rw d (refl, refl)
  | inr d ↦ rw d (refl, refl)
]
nudge_answers entitlement w (ok result, db) = elim (Bool-cases result.duplicate_delivery) [
  | inl d ↦ rw d (refl, refl)
  | inr d ↦ rw d (refl, refl)
]

nudge_result :
    (kind : NudgeKind) (w : World) (out : Result NudgeCreateResult × Db)
    → is_failed (answer_nudge kind w out).0 ≡ false
    → (result : NudgeCreateResult) × (out.0 ≡ ok result)
nudge_result kind w (err e, db) h = ground arith
nudge_result kind w (ok result, db) h = (result, refl)

review_answers :
    (login : Bytes) (now : ℕ) (w : World) (out : Result ReviewCreateResult × Db)
    → says_both out.0 ≡ false
    → ((answer_review login now w out).2.db ≡ out.1)
      × (is_enqueued (answer_review login now w out).0 ≡ was_created out.0)
review_answers login now w (err e, db) h = (refl, refl)
review_answers login now w (ok result, db) h = elim (Bool-cases result.duplicate_delivery) [
  | inl d ↦ rw d (refl, ground (arith, h, d))
  | inr d ↦ rw d (elim (Bool-cases result.created) [
    | inl c ↦ rw c (refl, refl)
    | inr c ↦ rw c (elim (Bool-cases (result.rate_limited || result.queue_full)) [
      | inl l ↦ rw l (refl, refl)
      | inr l ↦ rw l (refl, refl)
    ])
  ])
]

review_result :
    (login : Bytes) (now : ℕ) (w : World) (out : Result ReviewCreateResult × Db)
    → is_failed (answer_review login now w out).0 ≡ false
    → (result : ReviewCreateResult) × (out.0 ≡ ok result)
review_result login now w (err e, db) h = ground arith
review_result login now w (ok result, db) h = (result, refl)

module _ (delivery_id : Bytes) (now : ℕ) (w : World)
    (named : is_empty (trim_space delivery_id) ≡ false) where
  -- A notification enqueues no review.
  module _ (n : Nudge) (kind : NudgeKind) (token : Bytes) where
    abbrev pub notified : Answer × Handoff × World
    notified = answer_nudge kind w (create_nudge_once n delivery_id token now w.db)

    pub notified-reviews : (is_enqueued notified.0 ≡ false) × (notified.2.db.reviews ≡ w.db.reviews)
    notified-reviews =
        let (quiet, same) = nudge_answers kind w (create_nudge_once n delivery_id token now w.db) in
        (quiet, ap (λ db. db.reviews) same ∙ nudge_keeps_reviews n delivery_id token now w.db named)

    pub notified-delivered :
        is_failed notified.0 ≡ false
        → is_delivered (trim_space delivery_id) notified.2.db.deliveries ≡ true
    notified-delivered h =
        let (result, e) = nudge_result kind w (create_nudge_once n delivery_id token now w.db) h in
        ap (λ db. is_delivered (trim_space delivery_id) db.deliveries)
          (nudge_answers kind w (create_nudge_once n delivery_id token now w.db)).1
        ∙ is_delivered-nudge n delivery_id token now w.db result named e

    pub notified-seen :
        is_delivered (trim_space delivery_id) w.db.deliveries ≡ true
        → (notified.1 ≡ nothing) × (notified.2 ≡ w)
    notified-seen seen = elim (Bool-cases (is_valid_nudge n)) [
      | inl valid ↦ rw (nudge_replay n delivery_id token now w.db valid named seen) (refl, refl)
      | inr invalid ↦ rw (invalid_nudge n delivery_id token now w.db invalid) (refl, refl)
    ]

  module _ (r : Review) (login : Bytes) (admission : ReviewAdmission) (token : Bytes) where
    abbrev pub attempt : Result ReviewCreateResult × Db
    attempt = create_review_with_admission r delivery_id admission token now w.db

    abbrev pub reviewed : Answer × Handoff × World
    reviewed = answer_review login now w attempt

    -- A review is added when the answer says so, and no other.
    pub reviewed-reviews : reviewed.2.db.reviews ≡ (
        if is_enqueued reviewed.0
        then w.db.reviews ++ admitted r token now (next_id (λ q. q.id) w.db.reviews) ∷ []
        else w.db.reviews)
    reviewed-reviews =
        let (same, answered) =
          review_answers login now w attempt
            (never_both r delivery_id admission token now w.db named) in
        rw answered
          (ap (λ db. db.reviews) same ∙ reviews_lem r delivery_id admission token now w.db named)

    pub reviewed-delivered :
        is_failed reviewed.0 ≡ false
        → is_delivered (trim_space delivery_id) reviewed.2.db.deliveries ≡ true
    reviewed-delivered h =
        let (result, e) = review_result login now w attempt h in
        let (same, answered) =
          review_answers login now w attempt
            (never_both r delivery_id admission token now w.db named) in
        ap (λ db. is_delivered (trim_space delivery_id) db.deliveries) same
        ∙ is_delivered-outcome r delivery_id admission token now w.db result named e

    pub reviewed-seen :
        is_delivered (trim_space delivery_id) w.db.deliveries ≡ true
        → (reviewed.1 ≡ nothing) × (reviewed.2 ≡ w)
    reviewed-seen seen = elim (Bool-cases (is_valid_identity r)) [
      | inl valid ↦ rw (replay r delivery_id admission token now w.db valid named seen) (refl, refl)
      | inr invalid ↦ rw (invalid_lem r delivery_id admission token now w.db invalid) (refl, refl)
    ]
