-- ===== src/Engine/Agent.antt =====
-- internal/bot/engine.go: the run of the agent with a key of the pool.
use oc_review_bot.Common.{Bool, ℕ, zero, suc, [], ◌∷◌, Bytes, if◌then◌else◌}
use oc_review_bot.Store.Schema.{Review}
use oc_review_bot.Store.Reviews.{review_lease_current}
use oc_review_bot.Store.History.{Work}
use oc_review_bot.Server.Webhook.{Config, can_request_review}
use oc_review_bot.Engine.Errors.{
  Failure, Outcome, value, failed, review_access, errors_is, is_quota,
}
use oc_review_bot.Engine.Program.{
  done, inspect, acquire_key, exhaust_key, run_agent, RunOptions, Action, ◌>>=◌, ◌>>◌, pure, fail,
  keep, the_review, set_review,
}
use oc_review_bot.Engine.Checks.{review_side_effect_error, write_review, require_current}

-- `CanRequestReview` for the requester and the repository of the row
unfoldable pub is_allowed : Config → Review → Bool
is_allowed cfg r = can_request_review cfg r.requester_github_id r.installation_id r.repository_id

module _ (cfg : Config) (model diff : Bytes) where
  abbrev pub require_access : Action (Unit {0})
  require_access = do
    r ← the_review
    if is_allowed cfg r then pure tt else fail (review_access ∷ [])

  abbrev check_lease : Action Bool
  check_lease r =
      inspect
        (λ now db.
          (review_lease_current r.service_lease_owner r.claim_fence now r.id r.execution_generation
            db).0)
        (keep r)

  abbrev options : ℕ → Review → RunOptions
  options key_id r = record {
    repo_full = r.repo_full;
    pr_number = r.pr_number;
    expected_sha = r.head_sha;
    model = model;
    key_id = key_id;
    diff = diff;
  }

  abbrev pub start_agent : ℕ → Action (Outcome Bytes)
  start_agent key_id r = run_agent (options key_id r) (λ out. done (value out, r))

  abbrev cool : ℕ → Action Bool
  cool key_id r = exhaust_key key_id (keep r)

  -- A run that hit the quota cools its key down, and is tried with the next one.
  abbrev pub after_run : (Failure → Action Bytes) → ℕ × Outcome Bytes → Action Bytes
  after_run again (key_id, value out) = pure out
  after_run again (key_id, failed e) =
      if errors_is is_quota e then (review_side_effect_error >> cool key_id) >> again e else fail e

  abbrev pub one_run : Action (ℕ × Outcome Bytes)
  one_run = do
    review_side_effect_error
    require_access
    current ← check_lease
    require_current current
    key_id ← λ r. acquire_key (keep r)
    write_review (λ r. Work.set_review_execution r.id r.execution_generation model key_id)
    review_side_effect_error
    set_review (λ r. record r { model = model })
    out ← start_agent key_id
    pure (key_id, out)

  -- The runs that are left, after the error of the last one.
  unfoldable pub run_attempts : ℕ → Failure → Action Bytes
  unfolding review_side_effect_error write_review ◌>>=◌
  run_attempts zero last = fail last
  run_attempts (suc n) last = one_run >>= after_run (run_attempts n)

  -- `runWithPool`: two attempts. Without one there is no error to return.
  unfoldable pub run_with_pool : Action Bytes
  unfolding run_attempts
  run_with_pool = run_attempts 2 []
