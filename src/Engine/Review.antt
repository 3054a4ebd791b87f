-- ===== src/Engine/Review.antt =====
-- internal/bot/engine.go: the worker of a claimed review.
use oc_review_bot.Common.{
  Bool, true, false, not, ◌&&◌, ◌||◌, ℕ, List, [], ◌∷◌, Bytes, text_eq, is_empty, if◌then◌else◌,
}
use oc_review_bot.Store.Schema.{Review, PublicationPlan}
use oc_review_bot.Store.Publications.{Tokens}
use oc_review_bot.Store.History.{Work}
use oc_review_bot.Server.Webhook.{Config}
use oc_review_bot.Config.{valid_model}
use oc_review_bot.Review.Findings.{Finding}
use oc_review_bot.Review.Extract.{Library, ReviewResult, extract_review}
use oc_review_bot.Review.Index.{File, new_diff_index, kept_findings}
use oc_review_bot.Engine.Errors.{
  Failure, value, ErrorClass, errors_is, is_review_lease_lost, is_head_changed, review_revision,
}
use oc_review_bot.Engine.Program.{
  bind, Pr, done, request, get_diff, get_pr, list_files, model_setting, Action, after, pure, keep,
  the_review, set_review,
}
use oc_review_bot.Engine.Checks.{
  may_process, review_side_effect_error, write_review, verify_pr_target, revision_token,
  ensure_current_revision,
}
use oc_review_bot.Engine.Publish.{publish_prepared}
use oc_review_bot.Engine.Failures.{
  fail_and_signal, fail_head_changed, handle_review_error, handle_prepared_head_changed,
  finish_published_review, acknowledge, token_for_review, review_access_revoked_message,
  invalid_model_message,
}
use oc_review_bot.Engine.Agent.{is_allowed, run_with_pool}
use oc_review_bot.Engine.Steps.{Steps, or_else, quietly, stop_if, ◌>>=◌, ◌>>◌}

-- What a worker is given: the Go library's functions, the configuration, the text of an error, how a
-- review and the findings that are kept of it are rendered, and the tokens of its publications.
pub record Setup : Type 0 where
  pub library : Library
  pub digest : Bytes → Bytes
  pub config : Config
  pub zen_cooldown : ℕ
  pub pi : Bool
  pub failure_text : ErrorClass → Bytes
  pub plan_of : Review → Pr → ReviewResult → List Finding → PublicationPlan
  pub tokens : Tokens

abbrev pub current_model : Steps Bytes
current_model next r = model_setting (λ m. next m r)

module _ (s : Setup) where
  abbrev pub handle : Bytes → Failure → Action (Unit {0})
  handle token e = handle_review_error s.zen_cooldown s.pi s.failure_text token e

  module _ {A : Type 0} where
    -- An error is handled by `handleReviewError`.
    abbrev pub reported : Bytes → Action A → Steps A
    reported token m = or_else m (handle token)

  abbrev pub head_moved : Bytes → Action (Unit {0})
  head_moved token = handle_prepared_head_changed s.zen_cooldown s.pi s.failure_text token

  -- Only the loss of the lease ends the worker with nothing done.
  abbrev pub unless_lease_lost : Bytes → Failure → Action (Unit {0})
  unless_lease_lost token e = if errors_is is_review_lease_lost e then pure tt else handle token e

  abbrev pub or_head_moved : Bytes → Failure → Action (Unit {0})
  or_head_moved token e = if errors_is is_head_changed e then head_moved token else handle token e

  abbrev pub checked : Steps (Unit {0})
  checked = quietly review_side_effect_error

  abbrev pub current_pr : Action Pr
  current_pr r = get_pr r.repo_full r.pr_number (keep r)

  abbrev pub verified : Pr → Action Bytes
  verified pr r = done (verify_pr_target r.repository_id r.pr_number pr, r)

  abbrev pub update : (Review → Review) → Steps (Unit {0})
  update f = quietly (set_review f)

  abbrev pub review_now : Steps Review
  review_now = quietly the_review

  abbrev pub same_revision : Action Pr
  same_revision = ensure_current_revision s.library.equal_fold s.digest

  -- Whether the row names another head than the pull request
  abbrev pub is_other_head : Review → Pr → Bool
  is_other_head r pr = not (s.library.equal_fold pr.head_sha r.head_sha)

  abbrev pub is_other_revision : Review → Pr → Bool
  is_other_revision r pr = not (text_eq r.head_revision (revision_token s.digest pr))

  abbrev pub has_moved : Review → Pr → Bool
  has_moved r pr =
      if r.publication_prepared
      then is_empty r.head_revision || is_other_revision r pr || is_other_head r pr
      else not (is_empty r.head_sha) && is_other_head r pr
        || not (is_empty r.head_revision) && is_other_revision r pr

  abbrev pub when_moved : Bytes → Bool → Action (Unit {0})
  when_moved token true = head_moved token
  when_moved token false = fail_head_changed

  abbrev pub publish : Bytes → Action (Unit {0})
  publish token =
      reported token (publish_prepared s.library.equal_fold s.digest) (λ b. finish_published_review)

  abbrev pub planned : Pr → List File → ReviewResult → Review → PublicationPlan
  planned pr files result r =
      s.plan_of r pr result (kept_findings s.library (new_diff_index files) result.findings)

  -- `preparePublication` of the extracted review
  unfoldable pub prepare_publication : Pr → List File → Bytes → Action Bool
  prepare_publication pr files out = write_review (λ r.
      Work.prepare_review_publication r.id r.execution_generation
        (planned pr files (extract_review s.library out) r) s.tokens)

  -- A publication that was prepared before is taken up again.
  abbrev pub resume : Bytes → Action (Unit {0})
  resume token = or_else same_revision (or_head_moved token) (λ pr. checked (λ u. publish token))

  abbrev pub diff_of : Bytes → Steps (List File × Bytes)
  diff_of token = do
    checked
    reported token same_revision
    files ← reported token (λ r. list_files r.repo_full r.pr_number (keep r))
    checked
    reported token same_revision
    diff ← reported token (λ r. request (get_diff r.repo_full r.pr_number) (keep r))
    λ next. next (files, diff)

  -- The revision is checked once more before the plan is stored.
  abbrev pub still_current : Bytes → Steps Pr
  still_current token = do
    checked
    pr ← reported token current_pr
    repo ← reported token (verified pr)
    update (λ r. record r { repo_full = repo })
    r ← review_now
    stop_if (is_other_revision r pr || is_other_head r pr) fail_head_changed
    λ next. next pr

  abbrev pub produce_with : Bytes → List File × Bytes → Bytes → Action (Unit {0})
  produce_with token (files, diff) model =
      (do
        stop_if (not (valid_model model)) (fail_and_signal token invalid_model_message)
        out ← reported token (run_with_pool s.config model diff)
        pr ← still_current token
        checked
        reported token (prepare_publication pr files out)
        checked)
        (λ u. publish token)

  abbrev pub produce : Bytes → Action (Unit {0})
  produce token = diff_of token (λ work. current_model (λ model. produce_with token work model))

  abbrev pub bind_revision : Bytes → Steps (Unit {0})
  bind_revision token = do
    checked
    pr ← reported token current_pr
    repo ← reported token (verified pr)
    update (λ r. record r { repo_full = repo })
    stop_if (is_empty (revision_token s.digest pr)) (handle token (review_revision ∷ []))
    r ← review_now
    stop_if (has_moved r pr) (when_moved token r.publication_prepared)
    reported token (
        write_review (λ r.
          Work.set_review_revision r.id r.execution_generation repo pr.head_sha
            (revision_token s.digest pr)))
    update (λ r. record r { head_sha = pr.head_sha; head_revision = revision_token s.digest pr })
    checked
    reported token same_revision
    or_else review_side_effect_error (unless_lease_lost token)

  abbrev pub by_preparation : Bytes → Bool → Action (Unit {0})
  by_preparation token true = resume token
  by_preparation token false = produce token

  abbrev pub with_token : Bytes → Action (Unit {0})
  with_token token = bind_revision token (λ u.
      after acknowledge (λ out. review_now (λ r. by_preparation token r.publication_prepared)))

  abbrev pub accepted : Action (Unit {0})
  accepted =
      (do
        r ← review_now
        stop_if (not (is_allowed s.config r)) (fail_and_signal [] review_access_revoked_message)
        checked
        reported [] token_for_review)
        with_token

  abbrev pub if_allowed : Action Bool
  if_allowed r = bind may_process (λ may. keep r (value may))

  abbrev pub when_allowed : Bool → Action (Unit {0})
  when_allowed may = if may then accepted else pure tt

  -- `processClaimedReview`
  unfoldable pub process_claimed_review : Action (Unit {0})
  process_claimed_review = quietly if_allowed when_allowed
