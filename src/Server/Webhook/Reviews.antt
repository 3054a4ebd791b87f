-- ===== src/Server/Webhook/Reviews.antt =====
-- internal/server/webhook.go: which comments bring a review into the queue.
use oc_review_bot.Common.{
  ℕ, ◌≡◌, refl, Bool, true, false, not, ◌||◌, Option, none, some, inl, inr, List, [], ◌∷◌, ◌++◌,
  Bytes, arith, is_empty, trim_space, to_lower, Bool-cases, if◌then◌else◌,
}
use oc_review_bot.Store.Schema.{registration, entitlement, is_some}
use oc_review_bot.Store.Table.{next_id}
use oc_review_bot.Store.Admission.{admitted, is_delivered}
use oc_review_bot.Store.History.{Call, NoPurge, run}
use oc_review_bot.Store.Remembered.{is_delivered-run}
use oc_review_bot.Server.Webhook.{
  IssueComment, Config, World, User, Answer, Handoff, nothing, access_nudge, requested,
  can_request_review, allows_review_target, contains_id, queue_nudge, handle_issue_comment,
  admit_comment, user_by_github_id,
}
use oc_review_bot.Server.Webhook.Gates.{is_enqueued, is_relevant, gates_lem}
use oc_review_bot.Server.Webhook.Access.{
  is_failed, notified-reviews, notified-delivered, notified-seen, reviewed-reviews,
  reviewed-delivered, reviewed-seen,
}

can_request_entitled :
    (cfg : Config) (github_id installation_id repository_id : ℕ)
    → can_request_review cfg github_id installation_id repository_id ≡ true
    → (contains_id cfg.admin_github_ids github_id || contains_id cfg.reviewer_github_ids github_id)
      ≡ true
unfolding can_request_review
can_request_entitled cfg github_id installation_id repository_id =
    within (allows_review_target cfg installation_id repository_id)
  where
    within : {b : Bool} (t : Bool) → (if not t then false else b) ≡ true → b ≡ true
    within true h = h
    within false h = ground arith

module _ (lower : Bytes → Bytes) (equal_fold : Bytes → Bytes → Bool) (cfg : Config)
    (ev : IssueComment) (delivery_id token : Bytes) (now : ℕ) (w : World) where
  abbrev pub handled : Answer × Handoff × World
  handled = handle_issue_comment lower equal_fold cfg ev delivery_id token now w

  abbrev pub admission : Option User → Answer × Handoff × World
  admission = admit_comment lower equal_fold cfg ev delivery_id token now w

  abbrev pub is_entitled : Bool
  is_entitled =
      contains_id cfg.admin_github_ids ev.sender_id
      || contains_id cfg.reviewer_github_ids ev.sender_id

  abbrev pub Adds : Answer × Handoff × World → Type 0
  Adds out = out.2.db.reviews ≡ (
      if is_enqueued out.0
      then w.db.reviews ++ admitted (requested ev) token now (next_id (λ q. q.id) w.db.reviews) ∷ []
      else w.db.reviews)

  module _ (named : is_empty (trim_space delivery_id) ≡ false) where
    admission-Adds : (user : Option User) → Adds (admission user)
    unfolding admit_comment queue_nudge
    admission-Adds none =
        let (quiet, same) =
          notified-reviews delivery_id now w named (access_nudge ev registration) registration
            token in
        rw quiet same
    admission-Adds (some user) =
        elim (Bool-cases (can_request_review cfg ev.sender_id ev.installation_id ev.repo_id)) [
          | inl c ↦ rw c (
              reviewed-reviews delivery_id now w named (requested ev) (to_lower ev.sender_login)
                cfg.admission token)
          | inr c ↦ rw c (
              let (quiet, same) =
                notified-reviews delivery_id now w named (access_nudge ev entitlement) entitlement
                  token in
              rw quiet same)
        ]

    handled-Adds : Adds handled
    unfolding handle_issue_comment
    handled-Adds = elim (gates_lem lower equal_fold cfg ev delivery_id) [
      | inl (relevant, e) ↦ rw e (admission-Adds (user_by_github_id ev.sender_id w.users))
      | inr (other, (a, e, q)) ↦ rw (e, q) refl
    ]

    admission-entitled :
        (user : Option User)
        → is_enqueued (admission user).0 ≡ true
        → (is_some user ≡ true) × (is_entitled ≡ true)
    unfolding admit_comment queue_nudge
    admission-entitled none =
        rw
          ((notified-reviews delivery_id now w named (access_nudge ev registration) registration
            token).0)
          (λ h. ground arith)
    admission-entitled (some user) =
        elim (Bool-cases (can_request_review cfg ev.sender_id ev.installation_id ev.repo_id)) [
          | inl c ↦
              λ h. (refl, can_request_entitled cfg ev.sender_id ev.installation_id ev.repo_id c)
          | inr c ↦
              rw
                (
                  c,
                  (notified-reviews delivery_id now w named (access_nudge ev entitlement)
                      entitlement token).0,
                )
                (λ h. ground arith)
        ]

    handled-entitled :
        is_enqueued handled.0 ≡ true
        → (is_relevant lower equal_fold cfg ev delivery_id ≡ true)
          × (is_some (user_by_github_id ev.sender_id w.users) ≡ true)
          × (is_entitled ≡ true)
    unfolding handle_issue_comment
    handled-entitled = elim (gates_lem lower equal_fold cfg ev delivery_id) [
      | inl (relevant, e) ↦ rw e (λ h.
          let (known, may) = admission-entitled (user_by_github_id ev.sender_id w.users) h in
          (relevant, known, may))
      | inr (other, (a, e, q)) ↦ rw (e, q) (λ h. ground arith)
    ]

    admission-delivered :
        (user : Option User)
        → is_failed (admission user).0 ≡ false
        → is_delivered (trim_space delivery_id) (admission user).2.db.deliveries ≡ true
    unfolding admit_comment queue_nudge
    admission-delivered none =
        notified-delivered delivery_id now w named (access_nudge ev registration) registration token
    admission-delivered (some user) =
        elim (Bool-cases (can_request_review cfg ev.sender_id ev.installation_id ev.repo_id)) [
          | inl c ↦ rw c (
              reviewed-delivered delivery_id now w named (requested ev) (to_lower ev.sender_login)
                cfg.admission token)
          | inr c ↦ rw c (
              notified-delivered delivery_id now w named (access_nudge ev entitlement) entitlement
                token)
        ]

    admission-seen :
        (user : Option User)
        → is_delivered (trim_space delivery_id) w.db.deliveries ≡ true
        → ((admission user).1 ≡ nothing) × ((admission user).2 ≡ w)
    unfolding admit_comment queue_nudge
    admission-seen none =
        notified-seen delivery_id now w named (access_nudge ev registration) registration token
    admission-seen (some user) =
        elim (Bool-cases (can_request_review cfg ev.sender_id ev.installation_id ev.repo_id)) [
          | inl c ↦ rw c (
              reviewed-seen delivery_id now w named (requested ev) (to_lower ev.sender_login)
                cfg.admission token)
          | inr c ↦ rw c (
              notified-seen delivery_id now w named (access_nudge ev entitlement) entitlement token)
        ]

    -- A delivery that is recorded has no effect.
    handled-seen :
        is_delivered (trim_space delivery_id) w.db.deliveries ≡ true
        → (handled.1 ≡ nothing) × (handled.2 ≡ w)
    unfolding handle_issue_comment
    handled-seen seen = elim (gates_lem lower equal_fold cfg ev delivery_id) [
      | inl (relevant, e) ↦ rw e (admission-seen (user_by_github_id ev.sender_id w.users) seen)
      | inr (other, (a, e, q)) ↦ rw e (refl, refl)
    ]

    -- A relevant comment that the database did not fail leaves its delivery recorded.
    handled-delivered :
        is_relevant lower equal_fold cfg ev delivery_id ≡ true
        → is_failed handled.0 ≡ false
        → is_delivered (trim_space delivery_id) handled.2.db.deliveries ≡ true
    unfolding handle_issue_comment
    handled-delivered r = elim (gates_lem lower equal_fold cfg ev delivery_id) [
      | inl (relevant, e) ↦ rw e (admission-delivered (user_by_github_id ev.sender_id w.users))
      | inr (other, (a, e, q)) ↦ ground arith
    ]

-- The handler adds one review to the queue when it answers that a review is enqueued, the review
-- that the comment asks for, and no review when it answers anything else.
pub reviews_follow_the_answer :
    (lower : Bytes → Bytes) (equal_fold : Bytes → Bytes → Bool) (cfg : Config) (ev : IssueComment)
    (delivery_id token : Bytes) (now : ℕ) (w : World)
    → is_empty (trim_space delivery_id) ≡ false
    → (handle_issue_comment lower equal_fold cfg ev delivery_id token now w).2.db.reviews ≡ (
        if is_enqueued (handle_issue_comment lower equal_fold cfg ev delivery_id token now w).0
        then w.db.reviews
          ++ admitted (requested ev) token now (next_id (λ q. q.id) w.db.reviews) ∷ []
        else w.db.reviews)
reviews_follow_the_answer = handled-Adds

-- The handler enqueues a review only for a relevant comment (on a pull request of an allowed target,
-- by a human, with a mention of the bot) of a registered user whose GitHub id is configured as an
-- admin's or a reviewer's.
pub reviews_only_for_entitled :
    (lower : Bytes → Bytes) (equal_fold : Bytes → Bytes → Bool) (cfg : Config) (ev : IssueComment)
    (delivery_id token : Bytes) (now : ℕ) (w : World)
    → is_empty (trim_space delivery_id) ≡ false
    → is_enqueued (handle_issue_comment lower equal_fold cfg ev delivery_id token now w).0 ≡ true
    → (is_relevant lower equal_fold cfg ev delivery_id ≡ true)
      × (is_some (user_by_github_id ev.sender_id w.users) ≡ true)
      × ((contains_id cfg.admin_github_ids ev.sender_id
            || contains_id cfg.reviewer_github_ids ev.sender_id)
          ≡ true)
reviews_only_for_entitled = handled-entitled

-- Once a relevant comment of a delivery, whose name is not blank, was answered with anything but a
-- failure of the database, a later call with that delivery, whatever comment it carries, changes
-- nothing and hands nothing to the engine, as long as the store's calls in between (any history of
-- them) purge no deliveries, and whatever the users and the events are by then.
pub redelivery_has_no_effect :
    (lower : Bytes → Bytes) (equal_fold : Bytes → Bytes → Bool) (cfg : Config)
    (ev later_ev : IssueComment) (delivery_id token token' : Bytes) (now later : ℕ)
    (w later_w : World) (cs : List (ℕ × Call))
    → is_empty (trim_space delivery_id) ≡ false
    → is_relevant lower equal_fold cfg ev delivery_id ≡ true
    → is_failed (handle_issue_comment lower equal_fold cfg ev delivery_id token now w).0 ≡ false
    → NoPurge cs
    → later_w.db
      ≡ run cs (handle_issue_comment lower equal_fold cfg ev delivery_id token now w).2.db
    → ((handle_issue_comment lower equal_fold cfg later_ev delivery_id token' later later_w).1
        ≡ nothing)
      × ((handle_issue_comment lower equal_fold cfg later_ev delivery_id token' later later_w).2
          ≡ later_w)
redelivery_has_no_effect lower equal_fold cfg ev later_ev delivery_id token token' now later w
      later_w cs named relevant answered unpurged reached =
    handled-seen lower equal_fold cfg later_ev delivery_id token' later later_w named (
      rw reached (
        is_delivered-run (trim_space delivery_id) cs _ unpurged (
          handled-delivered lower equal_fold cfg ev delivery_id token now w named relevant
            answered)))
