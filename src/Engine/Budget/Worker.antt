-- ===== src/Engine/Budget/Worker.antt =====
-- internal/bot/engine.go: the worker of a claimed review.
use oc_review_bot.Common.{ℕ, not, Bool, true, false, List, Bytes, arith, if◌then◌else◌}
use oc_review_bot.Store.Schema.{is_some}
use oc_review_bot.Engine.Errors.{Failure, Outcome, value, failed}
use oc_review_bot.Engine.Program.{Program, Pr, Action, keep}
use oc_review_bot.Review.Index.{File}
use oc_review_bot.Engine.Checks.{may_process}
use oc_review_bot.Engine.Steps.{or_end}
use oc_review_bot.Engine.Review.{
  Setup, unless_lease_lost, or_head_moved, when_moved, publish, prepare_publication, resume,
  produce_with, produce, by_preparation, with_token, accepted, if_allowed, process_claimed_review,
  diff_of, current_model, bind_revision,
}
use oc_review_bot.Engine.Budget.{Covers, Covers-bind}
use oc_review_bot.Engine.Budget.Rules.{Neutral, neutral_rules}
use oc_review_bot.Engine.Budget.Checks.{
  Neutral-review_side_effect_error, Neutral-ensure_current_revision,
}
use oc_review_bot.Engine.Budget.Publish.{Neutral-publish_prepared}
use oc_review_bot.Engine.Budget.Review.{
  Neutral-fail_and_signal, Neutral-fail_head_changed, Neutral-handle_review_error,
  Neutral-handle_prepared_head_changed, Neutral-finish_published_review, Neutral-run_with_pool,
}

module _ {id : ℕ} where
  Neutral-or_end :
      {A : Type 0} (h : Failure → Action (Unit {0})) (next : A → Action (Unit {0}))
      → ((e : Failure) → Neutral id (h e))
      → ((a : A) → Neutral id (next a))
      → (out : Outcome A) → Neutral id (or_end h next out)
  Neutral-or_end h next c d (value a) = d a
  Neutral-or_end h next c d (failed e) = c e

  Neutral-model_setting :
      (next : Bytes → Action (Unit {0}))
      → ((m : Bytes) → Neutral id (next m))
      → Neutral id (current_model next)
  unfolding Covers
  Neutral-model_setting next c = record { at = λ k r x. (c x).at k r }

ruleset worker_rules = (
  neutral_rules, Neutral-or_end, Neutral-review_side_effect_error, Neutral-ensure_current_revision,
  Neutral-fail_and_signal, Neutral-fail_head_changed, Neutral-handle_review_error,
  Neutral-handle_prepared_head_changed,
)

module _ {id : ℕ} (s : Setup) where
  Neutral-unless_lease_lost :
      (token : Bytes) (e : Failure) → Neutral id (unless_lease_lost s token e)
  Neutral-unless_lease_lost token e = search worker_rules

  Neutral-or_head_moved : (token : Bytes) (e : Failure) → Neutral id (or_head_moved s token e)
  Neutral-or_head_moved token e = search worker_rules

  Neutral-when_moved : (token : Bytes) (b : Bool) → Neutral id (when_moved s token b)
  Neutral-when_moved token true = search worker_rules
  Neutral-when_moved token false = search worker_rules

  Neutral-publish : (token : Bytes) → Neutral id (publish s token)
  Neutral-publish token =
      search (worker_rules, Neutral-publish_prepared, Neutral-finish_published_review)

  Neutral-resume : (token : Bytes) → Neutral id (resume s token)
  Neutral-resume token = search (worker_rules, Neutral-publish, Neutral-or_head_moved) depth 20

  Neutral-prepare_publication :
      (pr : Pr) (files : List File) (out : Bytes) → Neutral id (prepare_publication s pr files out)
  unfolding prepare_publication
  Neutral-prepare_publication pr files out = search neutral_rules

  Neutral-produce_with :
      (token : Bytes) (work : List File × Bytes) (model : Bytes)
      → Neutral id (produce_with s token work model)
  Neutral-produce_with token (files, diff) model =
      search (worker_rules, Neutral-publish, Neutral-prepare_publication, Neutral-run_with_pool)
        depth 40

  Neutral-diff_of :
      (token : Bytes) (next : List File × Bytes → Action (Unit {0}))
      → ((work : List File × Bytes) → Neutral id (next work))
      → Neutral id (diff_of s token next)
  Neutral-diff_of token next c = search (worker_rules, c) depth 40

  Neutral-produce : (token : Bytes) → Neutral id (produce s token)
  Neutral-produce token =
      Neutral-diff_of token _ (λ work. Neutral-model_setting _ (Neutral-produce_with token work))

  Neutral-by_preparation : (token : Bytes) (b : Bool) → Neutral id (by_preparation s token b)
  Neutral-by_preparation token true = Neutral-resume token
  Neutral-by_preparation token false = Neutral-produce token

  Neutral-bind_revision :
      (token : Bytes) (next : Unit {0} → Action (Unit {0}))
      → ((u : Unit {0}) → Neutral id (next u))
      → Neutral id (bind_revision s token next)
  Neutral-bind_revision token next c =
      search (worker_rules, Neutral-unless_lease_lost, Neutral-when_moved, c) depth 50

  Neutral-with_token : (token : Bytes) → Neutral id (with_token s token)
  Neutral-with_token token =
      Neutral-bind_revision token _ (λ u. search (worker_rules, Neutral-by_preparation) depth 20)

  Neutral-accepted : Neutral id (accepted s)
  Neutral-accepted = search (worker_rules, Neutral-with_token) depth 20

covers_owned_or :
    (id k : ℕ) (owned : Bool)
    → Covers id {A = Bool} k k (
        if owned
        then Program.context_error (λ e. Program.done (not (is_some e)))
        else Program.done false)
unfolding Covers
covers_owned_or id k true = λ e. omega arith
covers_owned_or id k false = omega arith

pub covers_may_process : (id k : ℕ) → Covers id k k may_process
unfolding may_process Covers
covers_may_process id k = covers_owned_or id k

module _ {id : ℕ} (s : Setup) where
  Neutral-if_allowed : Neutral id (if_allowed s)
  unfolding Covers
  Neutral-if_allowed = record {
    at = λ k r.
        Covers-bind id may_process (λ may. keep r (value may)) k k k (covers_may_process id k)
          (λ may. omega arith);
  }

  pub Neutral-process_claimed_review : Neutral id (process_claimed_review s)
  unfolding process_claimed_review
  Neutral-process_claimed_review =
      search (neutral_rules, Neutral-or_end, Neutral-if_allowed, Neutral-accepted)
