-- ===== src/Server/Webhook/Gates.antt =====
-- internal/server/webhook.go: the comments that the handler ignores or refuses.
use oc_review_bot.Common.{
  ℕ, ◌≡◌, refl, Bool, true, false, not, ◌&&◌, ◌||◌, Option, none, some, ◌⊎◌, inl, inr, Bytes, codes,
  leb, arith, is_empty, if◌then◌else◌,
}
use oc_review_bot.Server.Names.{mentions_bot}
use oc_review_bot.Server.Webhook.{
  IssueComment, IssueNumber, pos, negsuc, pr_of, Config, World, Answer, not_a_pull_request,
  bad_payload, ignored_target, non_human_comment, no_mention, missing_delivery, review_enqueued,
  nothing, is_zero, valid_issue_comment_identity, allows_review_target, early_answer,
  handle_issue_comment,
}

abbrev pub is_enqueued : Answer → Bool
is_enqueued review_enqueued = true
is_enqueued _ = false

-- The early returns, and the condition that none is met, on the outcomes of the tests.
abbrev answer_of : (pr zero identity target human mention empty : Bool) → Option Answer
answer_of pr zero identity target human mention empty =
    if not pr || zero
    then some not_a_pull_request
    else if not identity
    then some bad_payload
    else if not target
    then some ignored_target
    else if not human
    then some non_human_comment
    else if not mention
    then some no_mention
    else if empty
    then some missing_delivery
    else none

abbrev passes : (pr identity target human mention empty : Bool) → Bool
passes pr identity target human mention empty =
    pr && (identity && (target && (human && (mention && not empty))))

abbrev Decided : Bool → Option Answer → Type 0
Decided relevant answer =
    ((relevant ≡ true) × (answer ≡ none))
    ⊎ ((relevant ≡ false) × ((a : Answer) × (answer ≡ some a) × (is_enqueued a ≡ false)))

decided :
    (pr zero identity target human mention empty : Bool)
    → (identity ≡ true → zero ≡ false)
    → Decided
        (passes pr identity target human mention empty)
        (answer_of pr zero identity target human mention empty)
decided false zero i t h m e z = inr (refl, (not_a_pull_request, refl, refl))
decided true true false t h m e z = inr (refl, (not_a_pull_request, refl, refl))
decided true true true t h m e z = ground (arith, z refl)
decided true false false t h m e z = inr (refl, (bad_payload, refl, refl))
decided true false true false h m e z = inr (refl, (ignored_target, refl, refl))
decided true false true true false m e z = inr (refl, (non_human_comment, refl, refl))
decided true false true true true false e z = inr (refl, (no_mention, refl, refl))
decided true false true true true true true z = inr (refl, (missing_delivery, refl, refl))
decided true false true true true true false z = inl (refl, refl)

numbered : (ev : IssueComment) → valid_issue_comment_identity ev ≡ true → is_zero ev.number ≡ false
unfolding valid_issue_comment_identity
numbered ev h = above ev.number (ground arith)
  where
    above : (n : IssueNumber) → leb 1 (pr_of n) ≡ true → is_zero n ≡ false
    above (pos n) h = ground arith
    above (negsuc n) h = refl

module _ (lower : Bytes → Bytes) (equal_fold : Bytes → Bytes → Bool) (cfg : Config) where
  -- A comment on a pull request of an allowed target, with a proper identity, by a human, that
  -- mentions the bot, in a delivery with an id.
  unfoldable pub is_relevant : IssueComment → Bytes → Bool
  is_relevant ev delivery_id =
      ev.is_pull_request
      && (valid_issue_comment_identity ev
          && (allows_review_target cfg ev.installation_id ev.repo_id
              && (equal_fold ev.sender_type (codes "User")
                  && (mentions_bot lower ev.comment_body cfg.bot_username
                      && not (is_empty delivery_id)))))

  -- Every early return is for a comment that is not relevant, and each such comment meets one.
  pub gates_lem :
      (ev : IssueComment) (delivery_id : Bytes)
      → Decided (is_relevant ev delivery_id) (early_answer lower equal_fold cfg ev delivery_id)
  unfolding is_relevant early_answer
  gates_lem ev delivery_id =
      decided ev.is_pull_request (is_zero ev.number) (valid_issue_comment_identity ev)
        (allows_review_target cfg ev.installation_id ev.repo_id)
        (equal_fold ev.sender_type (codes "User"))
        (mentions_bot lower ev.comment_body cfg.bot_username) (is_empty delivery_id) (numbered ev)

-- A comment that is not relevant (no pull request, an improper identity, a target outside the
-- configured installations and repositories, no human, no mention, or no delivery id) changes
-- nothing, neither the database nor its record of deliveries, and hands nothing to the engine.
pub irrelevant_leaves_no_trace :
    (lower : Bytes → Bytes) (equal_fold : Bytes → Bytes → Bool) (cfg : Config) (ev : IssueComment)
    (delivery_id token : Bytes) (now : ℕ) (w : World)
    → is_relevant lower equal_fold cfg ev delivery_id ≡ false
    → ((handle_issue_comment lower equal_fold cfg ev delivery_id token now w).1 ≡ nothing)
      × ((handle_issue_comment lower equal_fold cfg ev delivery_id token now w).2 ≡ w)
unfolding handle_issue_comment
irrelevant_leaves_no_trace lower equal_fold cfg ev delivery_id token now w h =
    elim (gates_lem lower equal_fold cfg ev delivery_id) [
      | inl (relevant, e) ↦ ground arith
      | inr (other, (a, e, q)) ↦ rw e (refl, refl)
    ]
