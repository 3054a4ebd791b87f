-- ===== src/Engine/Budget/Checks.antt =====
-- internal/bot/engine.go: the checks before an effect neither earn nor cost credit.
use oc_review_bot.Common.{ℕ, Bool, true, false, Bytes, arith, if◌then◌else◌}
use oc_review_bot.Store.Schema.{Review}
use oc_review_bot.Engine.Program.{Program, Pr}
use oc_review_bot.Engine.Errors.{Outcome, failed}
use oc_review_bot.Engine.Checks.{
  process_error, review_side_effect_error, review_completion_side_effect_error, require_current,
  require_same_revision, ensure_current_revision, ensure_current_head, outcome_of, lease_lost,
}
use oc_review_bot.Engine.Budget.{Covers}
use oc_review_bot.Engine.Budget.Rules.{Neutral, neutral_rules}

covers_owned :
    (id k : ℕ) (r : Review) (owned : Bool)
    → Covers id {A = Outcome (Unit {0}) × Review} k k (
        if owned
        then Program.context_error (λ e. Program.done (outcome_of e, r))
        else Program.done (failed lease_lost, r))
unfolding Covers
covers_owned id k r true = λ x. omega arith
covers_owned id k r false = omega arith

module _ {id : ℕ} where
  pub Neutral-process_error : Neutral id process_error
  unfolding process_error Covers
  Neutral-process_error = record { at = covers_owned id }

  pub Neutral-require_current : (current : Bool) → Neutral id (require_current current)
  Neutral-require_current current = search neutral_rules

  pub Neutral-review_side_effect_error : Neutral id review_side_effect_error
  unfolding review_side_effect_error
  Neutral-review_side_effect_error =
      search (neutral_rules, Neutral-process_error, Neutral-require_current)

  pub Neutral-review_completion_side_effect_error : Neutral id review_completion_side_effect_error
  unfolding review_completion_side_effect_error
  Neutral-review_completion_side_effect_error =
      search (neutral_rules, Neutral-process_error, Neutral-require_current)

  module _ (equal_fold : Bytes → Bytes → Bool) (digest : Bytes → Bytes) where
    Neutral-require_same_revision :
        (r : Review) (pr : Pr) → Neutral id (require_same_revision equal_fold digest r pr)
    Neutral-require_same_revision r pr = search neutral_rules

    pub Neutral-ensure_current_revision : Neutral id (ensure_current_revision equal_fold digest)
    unfolding ensure_current_revision
    Neutral-ensure_current_revision =
        search (neutral_rules, Neutral-review_side_effect_error, Neutral-require_same_revision)
          depth 20

    pub Neutral-ensure_current_head :
        (sha : Bytes) → Neutral id (ensure_current_head equal_fold digest sha)
    unfolding ensure_current_head
    Neutral-ensure_current_head sha = search (neutral_rules, Neutral-ensure_current_revision)
