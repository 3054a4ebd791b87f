-- ===== src/Engine/Settlement/Checks.antt =====
-- internal/bot/engine.go: the checks before an effect change nothing about a publication.
use oc_review_bot.Common.{refl, ℕ, Bool, true, false, Bytes, if◌then◌else◌}
use oc_review_bot.Store.Schema.{Review}
use oc_review_bot.Engine.Program.{Program, Pr}
use oc_review_bot.Engine.Errors.{Outcome, failed}
use oc_review_bot.Engine.Checks.{
  process_error, review_side_effect_error, review_completion_side_effect_error, require_current,
  require_same_revision, ensure_current_revision, ensure_current_head, outcome_of, lease_lost,
}
use oc_review_bot.Engine.Settlement.{Holds}
use oc_review_bot.Engine.Settlement.Rules.{Same, Quiet, quiet_rules}

quiet_owned :
    (id : ℕ) (b : Bool) (r : Review) (owned : Bool)
    → Holds id {A = Outcome (Unit {0}) × Review} (Same b) b (
        if owned
        then Program.context_error (λ e. Program.done (outcome_of e, r))
        else Program.done (failed lease_lost, r))
unfolding Holds
quiet_owned id b r true = λ x. refl
quiet_owned id b r false = refl

module _ {id : ℕ} where
  pub Quiet-process_error : Quiet id process_error
  unfolding process_error Holds
  Quiet-process_error = record { at = quiet_owned id }

  pub Quiet-require_current : (current : Bool) → Quiet id (require_current current)
  Quiet-require_current current = search quiet_rules

  pub Quiet-review_side_effect_error : Quiet id review_side_effect_error
  unfolding review_side_effect_error
  Quiet-review_side_effect_error = search (quiet_rules, Quiet-process_error, Quiet-require_current)

  pub Quiet-review_completion_side_effect_error : Quiet id review_completion_side_effect_error
  unfolding review_completion_side_effect_error
  Quiet-review_completion_side_effect_error =
      search (quiet_rules, Quiet-process_error, Quiet-require_current)

  module _ (equal_fold : Bytes → Bytes → Bool) (digest : Bytes → Bytes) where
    Quiet-require_same_revision :
        (r : Review) (pr : Pr) → Quiet id (require_same_revision equal_fold digest r pr)
    Quiet-require_same_revision r pr = search quiet_rules

    pub Quiet-ensure_current_revision : Quiet id (ensure_current_revision equal_fold digest)
    unfolding ensure_current_revision
    Quiet-ensure_current_revision =
        search (quiet_rules, Quiet-review_side_effect_error, Quiet-require_same_revision) depth 20

    pub Quiet-ensure_current_head :
        (sha : Bytes) → Quiet id (ensure_current_head equal_fold digest sha)
    unfolding ensure_current_head
    Quiet-ensure_current_head sha = search (quiet_rules, Quiet-ensure_current_revision)
