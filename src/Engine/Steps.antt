-- ===== src/Engine/Steps.antt =====
-- internal/bot/engine.go: the shape of a worker, whose parts end it early on an error. Some errors end
-- it with nothing done, and the others by way of `handleReviewError`.
use oc_review_bot.Common.{Bool, if◌then◌else◌}
use oc_review_bot.Engine.Errors.{Failure, Outcome, value, failed}
use oc_review_bot.Engine.Program.{Action, after, pure}

-- A part of a worker, with what follows it.
abbrev pub Steps : Type 0 → Type 0
Steps A = (A → Action (Unit {0})) → Action (Unit {0})

module _ {A : Type 0} where
  abbrev pub or_end :
      (Failure → Action (Unit {0})) → (A → Action (Unit {0})) → Outcome A → Action (Unit {0})
  or_end handle next (value a) = next a
  or_end handle next (failed e) = handle e

  -- An error is handled, and ends the worker.
  abbrev pub or_else : Action A → (Failure → Action (Unit {0})) → Steps A
  or_else m handle next = after m (or_end handle next)

  -- An error ends the worker.
  abbrev pub quietly : Action A → Steps A
  quietly m = or_else m (λ e. pure tt)

-- Ends the worker with `m` if the test holds.
abbrev pub stop_if : Bool → Action (Unit {0}) → Steps (Unit {0})
stop_if test m next = if test then m else next tt

module _ {A B : Type 0} where
  infixl 5 ◌>>=◌ ◌>>◌
  abbrev pub ◌>>=◌ : Steps A → (A → Steps B) → Steps B
  (m >>= f) next = m (λ a. f a next)

  abbrev pub ◌>>◌ : Steps A → Steps B → Steps B
  (m >> n) next = m (λ _. n next)
