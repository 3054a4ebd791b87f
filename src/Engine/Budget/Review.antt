-- ===== src/Engine/Budget/Review.antt =====
-- internal/bot/engine.go: a worker of a review, and the handling of its errors, post only what they
-- have recorded the start of.
use oc_review_bot.Common.{
  ℕ, zero, suc, Bool, true, false, none, some, Option, List, [], ◌∷◌, Bytes, arith,
}
use oc_review_bot.Store.Schema.{
  Publication, PublicationStatus, pending, sending, posted, reconciliation_required,
}
use oc_review_bot.Server.Webhook.{Config}
use oc_review_bot.Engine.Errors.{Failure, Outcome, value, failed, ErrorClass}
use oc_review_bot.Engine.Program.{Action}
use oc_review_bot.Engine.Failures.{
  landed, record_failure, fail_review, react_unless_done, react_if, signal_review_failure,
  fail_and_signal, fail_head_changed, Verdict, leave, reconcile, head_moved, revoked, retry,
  terminal, carry_out, handle_review_error, settle_claim, take_over_sending, resolve, resolve_all,
  reconcile_prepared_publications, release, handle_prepared_head_changed, react_rocket,
  finish_published_review,
}
use oc_review_bot.Engine.Agent.{
  require_access, start_agent, after_run, one_run, run_attempts, run_with_pool,
}
use oc_review_bot.Engine.Budget.{Covers}
use oc_review_bot.Engine.Budget.Rules.{
  Neutral, neutral_rules, Neutral-bind, Neutral-if, Neutral-pure,
}
use oc_review_bot.Engine.Budget.Checks.{
  Neutral-require_current, Neutral-review_side_effect_error,
  Neutral-review_completion_side_effect_error,
}
use oc_review_bot.Engine.Budget.Publish.{resolving}

module _ {id : ℕ} where
  Neutral-landed : (out : Outcome Bool) → Neutral id (landed out)
  Neutral-landed (value b) = search neutral_rules
  Neutral-landed (failed e) = search neutral_rules

  Neutral-record_failure :
      (message : Bytes) (still : Bool) → Neutral id (record_failure message still)
  Neutral-record_failure message true = search (neutral_rules, Neutral-landed)
  Neutral-record_failure message false = search neutral_rules

  Neutral-fail_review : (message : Bytes) → Neutral id (fail_review message)
  unfolding fail_review
  Neutral-fail_review message = search (neutral_rules, Neutral-record_failure)

  Neutral-react_unless_done :
      (token : Bytes) (e : Option Failure) → Neutral id (react_unless_done token e)
  Neutral-react_unless_done token (some e) = search neutral_rules
  Neutral-react_unless_done token none = search neutral_rules

  Neutral-react_if : (token : Bytes) (test : Bool) → Neutral id (react_if token test)
  Neutral-react_if token true = search (neutral_rules, Neutral-react_unless_done)
  Neutral-react_if token false = search neutral_rules

  Neutral-signal_review_failure : (token : Bytes) → Neutral id (signal_review_failure token)
  unfolding signal_review_failure
  Neutral-signal_review_failure token = search (neutral_rules, Neutral-react_if)

  pub Neutral-fail_and_signal : (token message : Bytes) → Neutral id (fail_and_signal token message)
  Neutral-fail_and_signal token message =
      search (neutral_rules, Neutral-fail_review, Neutral-signal_review_failure)

  pub Neutral-fail_head_changed : Neutral id fail_head_changed
  unfolding fail_head_changed
  Neutral-fail_head_changed = search (neutral_rules, Neutral-fail_review)

  Neutral-settle_claim : (out : Outcome Bool) → Neutral id (settle_claim out)
  Neutral-settle_claim (value true) = search neutral_rules
  Neutral-settle_claim (value false) = search neutral_rules
  Neutral-settle_claim (failed e) = search neutral_rules

  Neutral-take_over_sending :
      (p : Publication) (status : PublicationStatus) → Neutral id (take_over_sending p status)
  Neutral-take_over_sending p sending = search (neutral_rules, Neutral-settle_claim)
  Neutral-take_over_sending p pending = search neutral_rules
  Neutral-take_over_sending p posted = search neutral_rules
  Neutral-take_over_sending p reconciliation_required = search neutral_rules

  Neutral-resolve : (p : Publication) → Neutral id (resolve p)
  Neutral-resolve p =
      Neutral-bind _ _ (Neutral-take_over_sending p p.status) (λ _. search resolving depth 20)

  Neutral-resolve_all : (ps : List Publication) → Neutral id (resolve_all ps)
  unfolding resolve_all
  Neutral-resolve_all [] = search neutral_rules
  Neutral-resolve_all (p ∷ ps) =
      Neutral-bind _ _ (Neutral-if _ (Neutral-resolve p) (Neutral-pure tt))
        (λ _. Neutral-resolve_all ps)

  Neutral-reconcile_prepared_publications : Neutral id reconcile_prepared_publications
  unfolding reconcile_prepared_publications
  Neutral-reconcile_prepared_publications = search (resolving, Neutral-resolve_all)

  Neutral-react_rocket : (out : Outcome (Unit {0})) → Neutral id (react_rocket out)
  Neutral-react_rocket (value u) = search neutral_rules
  Neutral-react_rocket (failed e) = search neutral_rules

  pub Neutral-finish_published_review : Neutral id finish_published_review
  unfolding finish_published_review
  Neutral-finish_published_review =
      search (neutral_rules, Neutral-react_rocket, Neutral-review_completion_side_effect_error)

  module _ (zen_cooldown : ℕ) (pi : Bool) (failure_text : ErrorClass → Bytes) where
    Neutral-carry_out :
        (token : Bytes) (v : Verdict) → Neutral id (carry_out zen_cooldown pi failure_text token v)
    unfolding carry_out
    Neutral-carry_out token leave = search neutral_rules
    Neutral-carry_out token reconcile = search neutral_rules
    Neutral-carry_out token head_moved = Neutral-fail_head_changed
    Neutral-carry_out token revoked = Neutral-fail_and_signal token _
    Neutral-carry_out token (retry delay) = search neutral_rules
    Neutral-carry_out token (terminal message) = Neutral-fail_and_signal token message

    pub Neutral-handle_review_error :
        (token : Bytes) (e : Failure)
        → Neutral id (handle_review_error zen_cooldown pi failure_text token e)
    unfolding handle_review_error
    Neutral-handle_review_error token e = search (neutral_rules, Neutral-carry_out)

    Neutral-release :
        (token : Bytes) (out : Outcome (Unit {0}))
        → Neutral id (release zen_cooldown pi failure_text token out)
    Neutral-release token (value u) = Neutral-fail_head_changed
    Neutral-release token (failed e) = Neutral-handle_review_error token e

    pub Neutral-handle_prepared_head_changed :
        (token : Bytes)
        → Neutral id (handle_prepared_head_changed zen_cooldown pi failure_text token)
    unfolding handle_prepared_head_changed
    Neutral-handle_prepared_head_changed token =
        search (neutral_rules, Neutral-reconcile_prepared_publications, Neutral-release)

  module _ (cfg : Config) (model diff : Bytes) where
    Neutral-require_access : Neutral id (require_access cfg model diff)
    Neutral-require_access = search neutral_rules

    Neutral-after_run :
        (again : Failure → Action Bytes) (run : ℕ × Outcome Bytes)
        → ((e : Failure) → Neutral id (again e))
        → Neutral id (after_run cfg model diff again run)
    Neutral-after_run again (key_id, value out) c = search neutral_rules
    Neutral-after_run again (key_id, failed e) c =
        search (neutral_rules, Neutral-review_side_effect_error, c)

    Neutral-start_agent : (key_id : ℕ) → Neutral id (start_agent cfg model diff key_id)
    unfolding Covers
    Neutral-start_agent key_id = record { at = λ k r x. omega arith }

    Neutral-one_run : Neutral id (one_run cfg model diff)
    Neutral-one_run =
        search
          (
            neutral_rules, Neutral-review_side_effect_error, Neutral-require_access,
            Neutral-require_current, Neutral-start_agent,
          )
          depth 30

    Neutral-run_attempts :
        (n : ℕ) (last : Failure) → Neutral id (run_attempts cfg model diff n last)
    unfolding run_attempts
    Neutral-run_attempts zero last = search neutral_rules
    Neutral-run_attempts (suc n) last =
        Neutral-bind _ _ Neutral-one_run
          (λ run. Neutral-after_run _ run (λ e. Neutral-run_attempts n e))

    pub Neutral-run_with_pool : Neutral id (run_with_pool cfg model diff)
    unfolding run_with_pool
    Neutral-run_with_pool = Neutral-run_attempts 2 []
