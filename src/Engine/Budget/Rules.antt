-- ===== src/Engine/Budget/Rules.antt =====
-- The rules for the credit of the parts of a worker's program.
use oc_review_bot.Common.{ℕ, suc, ◌≤◌, ◌≡◌, Bytes, refl, Bool, true, false, arith, if◌then◌else◌}
use oc_review_bot.Store.Schema.{Review, Db}
use oc_review_bot.Store.Tx.{Result}
use oc_review_bot.Store.History.{Work}
use oc_review_bot.Engine.Errors.{Failure, Outcome, value, failed}
use oc_review_bot.Engine.Program.{
  done, lease_owned, context_error, inspect, list_publications, request, Request, get_pr,
  list_files, acquire_key, exhaust_key, keep, Action, after, with_outcome, go_on, ◌>>=◌, pure, fail,
  the_review, set_review,
}
use oc_review_bot.Engine.Checks.{write_review}
use oc_review_bot.Engine.Budget.{Covers, Covers-bind, starts_send}

-- A part that leaves the credit that it finds.
pub record Neutral {A : Type 0} (id : ℕ) (m : Action A) : Type 0 where
  pub at : (k : ℕ) (r : Review) → Covers id k k (m r)

module _ {A : Type 0} {id : ℕ} where
  pub Neutral-pure : (a : A) → Neutral id (pure a)
  unfolding pure Covers
  Neutral-pure a = record { at = λ k r. omega arith }

  pub Neutral-fail : (e : Failure) → Neutral id (fail {A = A} e)
  unfolding fail Covers
  Neutral-fail e = record { at = λ k r. omega arith }

  pub Neutral-if :
      {yes no : Action A} (test : Bool)
      → Neutral id yes
      → Neutral id no
      → Neutral id (if test then yes else no)
  Neutral-if true c d = c
  Neutral-if false c d = d

module _ {id : ℕ} where
  pub Neutral-the_review : Neutral id the_review
  unfolding the_review Covers
  Neutral-the_review = record { at = λ k r. omega arith }

  pub Neutral-set_review : (f : Review → Review) → Neutral id (set_review f)
  unfolding set_review Covers
  Neutral-set_review f = record { at = λ k r. omega arith }

  -- A write that starts no send
  pub Neutral-write :
      (w : Review → Work)
      → ((r : Review) → starts_send id (w r) ≡ false)
      → Neutral id (write_review w)
  unfolding write_review Covers
  Neutral-write w h = record { at = λ k r x. rw (h r) (omega arith) }

-- The calls that start no send and post nothing
module _ {id : ℕ} where
  pub Neutral-inspect :
      (t : Review → ℕ → Db → Result Bool) → Neutral id (λ r. inspect (t r) (keep r))
  unfolding Covers
  Neutral-inspect t = record { at = λ k r x. omega arith }

  pub Neutral-get_pr :
      (repo : Review → Bytes) (n : Review → ℕ) → Neutral id (λ r. get_pr (repo r) (n r) (keep r))
  unfolding Covers
  Neutral-get_pr repo n = record { at = λ k r x. omega arith }

  pub Neutral-request : (q : Review → Request) → Neutral id (λ r. request (q r) (keep r))
  unfolding Covers
  Neutral-request q = record { at = λ k r x. omega arith }

  pub Neutral-list_files :
      (repo : Review → Bytes) (n : Review → ℕ)
      → Neutral id (λ r. list_files (repo r) (n r) (keep r))
  unfolding Covers
  Neutral-list_files repo n = record { at = λ k r x. omega arith }

  pub Neutral-list_publications :
      (i : Review → ℕ) → Neutral id (λ r. list_publications (i r) (keep r))
  unfolding Covers
  Neutral-list_publications i = record { at = λ k r x. omega arith }

  pub Neutral-lease_owned : Neutral id (λ r. lease_owned (λ b. keep r (value b)))
  unfolding Covers
  Neutral-lease_owned = record { at = λ k r x. omega arith }

  pub Neutral-context_error : Neutral id (λ r. context_error (λ e. keep r (value e)))
  unfolding Covers
  Neutral-context_error = record { at = λ k r x. omega arith }

  pub Neutral-acquire_key : Neutral id (λ r. acquire_key (keep r))
  unfolding Covers
  Neutral-acquire_key = record { at = λ k r x. omega arith }

  pub Neutral-exhaust_key : (key_id : ℕ) → Neutral id (λ r. exhaust_key key_id (keep r))
  unfolding Covers
  Neutral-exhaust_key key_id = record { at = λ k r x. omega arith }

module _ {A : Type 0} {id : ℕ} where
  -- A pure test of the row
  pub Neutral-done : (f : Review → Outcome A) → Neutral id (λ r. done (f r, r))
  unfolding Covers
  Neutral-done f = record { at = λ k r. omega arith }

module _ {A B : Type 0} {id : ℕ} where
  pub covers_with :
      (f : Outcome A → Action B) (k : ℕ)
      → ((out : Outcome A) → Neutral id (f out))
      → (p : Outcome A × Review) → Covers id k k (with_outcome f p)
  covers_with f k d (out, r) = (d out).at k r

  pub Neutral-after :
      (m : Action A) (f : Outcome A → Action B)
      → Neutral id m
      → ((out : Outcome A) → Neutral id (f out))
      → Neutral id (after m f)
  unfolding after
  Neutral-after m f c d = record {
    at = λ k r. Covers-bind id (m r) (with_outcome f) k k k (c.at k r) (covers_with f k d);
  }

  covers_on :
      (f : A → Action B) (k : ℕ)
      → ((a : A) → Neutral id (f a))
      → (p : Outcome A × Review) → Covers id k k (go_on f p)
  unfolding Covers
  covers_on f k d (value a, r) = (d a).at k r
  covers_on f k d (failed e, r) = omega arith

  pub Neutral-bind :
      (m : Action A) (f : A → Action B)
      → Neutral id m
      → ((a : A) → Neutral id (f a))
      → Neutral id (m >>= f)
  unfolding ◌>>=◌
  Neutral-bind m f c d = record {
    at = λ k r. Covers-bind id (m r) (go_on f) k k k (c.at k r) (covers_on f k d);
  }

  -- The parts by the outcome of the one before
  pub Neutral-outcome :
      (f : Outcome A → Action B)
      → ((a : A) → Neutral id (f (value a)))
      → ((e : Failure) → Neutral id (f (failed e)))
      → (out : Outcome A) → Neutral id (f out)
  Neutral-outcome f c d (value a) = c a
  Neutral-outcome f c d (failed e) = d e

pub ruleset neutral_rules = (
  Neutral-bind, Neutral-after, Neutral-if, Neutral-pure, Neutral-fail, Neutral-the_review,
  Neutral-set_review, Neutral-write, Neutral-inspect, Neutral-get_pr, Neutral-request,
  Neutral-list_files, Neutral-list_publications, Neutral-lease_owned, Neutral-context_error,
  Neutral-acquire_key, Neutral-exhaust_key, Neutral-done, refl,
)
