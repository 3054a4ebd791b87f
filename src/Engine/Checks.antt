-- ===== src/Engine/Checks.antt =====
-- internal/bot/engine.go: the checks before every effect. `equal_fold` is strings.EqualFold, and
-- `digest` the SHA-256 in hexadecimal, of the Go library.
use oc_review_bot.Common.{
  ℕ, Bool, false, not, ◌||◌, Option, none, some, [], ◌∷◌, ◌++◌, Bytes, text_eq, is_empty,
  trim_space, leb, ◌==◌, if◌then◌else◌,
}
use oc_review_bot.Store.Schema.{Review, review_lease_lost, is_some}
use oc_review_bot.Store.Reviews.{review_lease_current, review_completion_lease_current}
use oc_review_bot.Store.History.{Work}
use oc_review_bot.Server.Names.{valid_repo_full_name}
use oc_review_bot.Engine.Errors.{
  Failure, Outcome, value, failed, store, head_changed, review_revision, repository_identity,
}
use oc_review_bot.Engine.Program.{
  Pr, Program, done, lease_owned, context_error, write, inspect, get_pr, Action, ◌>>=◌, ◌>>◌, pure,
  fail, keep, the_review, set_review,
}

abbrev pub lease_lost : Failure
lease_lost = store review_lease_lost ∷ []

abbrev pub outcome_of : Option Failure → Outcome (Unit {0})
outcome_of none = value tt
outcome_of (some e) = failed e

-- `processError`
unfoldable pub process_error : Action (Unit {0})
process_error r = lease_owned (λ owned.
    if owned then context_error (λ e. done (outcome_of e, r)) else done (failed lease_lost, r))

-- `mayProcess`
unfoldable pub may_process : Program Bool
may_process =
    lease_owned (λ owned. if owned then context_error (λ e. done (not (is_some e))) else done false)

abbrev pub require_current : Bool → Action (Unit {0})
require_current current = if current then pure tt else fail lease_lost

-- `reviewSideEffectError`
unfoldable pub review_side_effect_error : Action (Unit {0})
unfolding process_error
review_side_effect_error = do
  process_error
  r ← the_review
  current ← λ s.
      inspect
        (λ now db.
          (review_lease_current r.service_lease_owner r.claim_fence now r.id r.execution_generation
            db).0)
        (keep s)
  require_current current

-- `reviewCompletionSideEffectError`
unfoldable pub review_completion_side_effect_error : Action (Unit {0})
unfolding process_error
review_completion_side_effect_error = do
  process_error
  r ← the_review
  current ← λ s.
      inspect
        (λ now db.
          (review_completion_lease_current r.service_lease_owner r.claim_fence now r.id
            r.execution_generation db).0)
        (keep s)
  require_current current

-- A write of the store under the claim of the review
unfoldable pub write_review : (Review → Work) → Action Bool
write_review w r = write r.service_lease_owner r.claim_fence (w r) (keep r)

-- `TargetRepositoryID`
abbrev pub target_repository_id : Pr → ℕ
target_repository_id pr =
    if not (pr.base_repository_id == 0) then pr.base_repository_id else pr.base_repo_id

-- `TargetRepositoryFullName`
abbrev pub target_repository_full_name : Pr → Bytes
target_repository_full_name pr =
    if not (is_empty pr.base_full_name) then pr.base_full_name else pr.base_repo_full_name

-- `verifyPRTarget`; `ValidRepoFullName` accepts the names that the webhook's test does.
unfoldable pub verify_pr_target : ℕ → ℕ → Pr → Outcome Bytes
verify_pr_target repository_id pr_number pr =
    if not (leb 1 repository_id)
      || not (pr.number == pr_number)
      || not (target_repository_id pr == repository_id)
    then failed (repository_identity ∷ [])
    else if valid_repo_full_name (trim_space (target_repository_full_name pr))
    then value (trim_space (target_repository_full_name pr))
    else failed (repository_identity ∷ [])

module _ (digest : Bytes → Bytes) where
  -- `RevisionToken`
  unfoldable pub revision_token : Pr → Bytes
  revision_token pr =
      let material : Bytes = pr.head_sha ++ (0 ∷ pr.base_sha ++ (0 ∷ pr.head_ref)) in
      digest
        (if is_empty (trim_space pr.updated_at) then material else pr.updated_at ++ (0 ∷ material))

module _ (equal_fold : Bytes → Bytes → Bool) (digest : Bytes → Bytes) where
  abbrev pub require_same_revision : Review → Pr → Action (Unit {0})
  require_same_revision r pr =
      if is_empty (revision_token digest pr) || is_empty r.head_revision
      then fail (review_revision ∷ [])
      else if not (text_eq (revision_token digest pr) r.head_revision)
          || not (equal_fold pr.head_sha r.head_sha)
      then fail (review_revision ∷ head_changed ∷ [])
      else pure tt

  -- `ensureCurrentRevision`
  unfoldable pub ensure_current_revision : Action Pr
  unfolding review_side_effect_error verify_pr_target revision_token write_review
  ensure_current_revision = do
    review_side_effect_error
    r ← the_review
    pr ← λ s. get_pr r.repo_full r.pr_number (keep s)
    repo ← λ s. done (verify_pr_target r.repository_id r.pr_number pr, s)
    set_review (λ s. record s { repo_full = repo })
    require_same_revision r pr
    write_review
        (λ s. Work.set_review_revision s.id s.execution_generation repo s.head_sha s.head_revision)
    pure pr

  -- `ensureCurrentHead`
  unfoldable pub ensure_current_head : Bytes → Action Pr
  unfolding ensure_current_revision
  ensure_current_head expected_sha = do
    pr ← ensure_current_revision
    if equal_fold pr.head_sha expected_sha then pure pr else fail (head_changed ∷ [])
