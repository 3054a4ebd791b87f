-- ===== src/Engine/Settlement/Rules.antt =====
-- The rules for the parts of a worker's program that settle nothing and begin nothing.
use oc_review_bot.Common.{ℕ, suc, ◌≡◌, Bytes, refl, Bool, ◌&&◌, true, false, arith, if◌then◌else◌}
use oc_review_bot.Store.Schema.{Review, Db}
use oc_review_bot.Store.Tx.{Result}
use oc_review_bot.Store.History.{Work}
use oc_review_bot.Engine.Errors.{Failure, Outcome, value, failed}
use oc_review_bot.Engine.Program.{
  done, lease_owned, context_error, inspect, list_publications, request, Request, get_pr,
  list_files, acquire_key, exhaust_key, keep, Action, after, with_outcome, go_on, ◌>>=◌, pure, fail,
  the_review, set_review,
}
use oc_review_bot.Engine.Checks.{write_review}
use oc_review_bot.Engine.Settlement.{Holds, Holds-bind, releases, unsettled_after}

abbrev pub Same : {A : Type 0} → Bool → Bool → A → Type 0
Same b b' a = b' ≡ b

pub and_false : (b : Bool) → b && false ≡ false
and_false true = refl
and_false false = refl

-- A part that neither settles nor unsettles the publication, and does not release the review.
pub record Quiet {A : Type 0} (id : ℕ) (m : Action A) : Type 0 where
  pub at : (b : Bool) (r : Review) → Holds id (Same b) b (m r)

module _ {A : Type 0} {id : ℕ} where
  pub Quiet-pure : (a : A) → Quiet id (pure a)
  unfolding pure Holds
  Quiet-pure a = record { at = λ b r. refl }

  pub Quiet-fail : (e : Failure) → Quiet id (fail {A = A} e)
  unfolding fail Holds
  Quiet-fail e = record { at = λ b r. refl }

  pub Quiet-if :
      {yes no : Action A} (test : Bool)
      → Quiet id yes
      → Quiet id no
      → Quiet id (if test then yes else no)
  Quiet-if true c d = c
  Quiet-if false c d = d

module _ {id : ℕ} where
  pub Quiet-the_review : Quiet id the_review
  unfolding the_review Holds
  Quiet-the_review = record { at = λ b r. refl }

  pub Quiet-set_review : (f : Review → Review) → Quiet id (set_review f)
  unfolding set_review Holds
  Quiet-set_review f = record { at = λ b r. refl }

  -- A write that does not concern the publication's sending, nor releases the review
  pub Quiet-write :
      (w : Review → Work)
      → ((r : Review) → releases (w r) ≡ false)
      → ((r : Review) (b : Bool) (x : Outcome Bool) → unsettled_after id b (w r) x ≡ b)
      → Quiet id (write_review w)
  unfolding write_review Holds
  Quiet-write w h k = record { at = λ b r. (rw (h r) (and_false b), λ x. k r b x) }

-- The calls that start no send and post nothing
module _ {id : ℕ} where
  pub Quiet-inspect : (t : Review → ℕ → Db → Result Bool) → Quiet id (λ r. inspect (t r) (keep r))
  unfolding Holds
  Quiet-inspect t = record { at = λ b r x. refl }

  pub Quiet-get_pr :
      (repo : Review → Bytes) (n : Review → ℕ) → Quiet id (λ r. get_pr (repo r) (n r) (keep r))
  unfolding Holds
  Quiet-get_pr repo n = record { at = λ b r x. refl }

  pub Quiet-request : (q : Review → Request) → Quiet id (λ r. request (q r) (keep r))
  unfolding Holds
  Quiet-request q = record { at = λ b r x. refl }

  pub Quiet-list_files :
      (repo : Review → Bytes) (n : Review → ℕ) → Quiet id (λ r. list_files (repo r) (n r) (keep r))
  unfolding Holds
  Quiet-list_files repo n = record { at = λ b r x. refl }

  pub Quiet-list_publications : (i : Review → ℕ) → Quiet id (λ r. list_publications (i r) (keep r))
  unfolding Holds
  Quiet-list_publications i = record { at = λ b r x. refl }

  pub Quiet-lease_owned : Quiet id (λ r. lease_owned (λ b. keep r (value b)))
  unfolding Holds
  Quiet-lease_owned = record { at = λ b r x. refl }

  pub Quiet-context_error : Quiet id (λ r. context_error (λ e. keep r (value e)))
  unfolding Holds
  Quiet-context_error = record { at = λ b r x. refl }

  pub Quiet-acquire_key : Quiet id (λ r. acquire_key (keep r))
  unfolding Holds
  Quiet-acquire_key = record { at = λ b r x. refl }

  pub Quiet-exhaust_key : (key_id : ℕ) → Quiet id (λ r. exhaust_key key_id (keep r))
  unfolding Holds
  Quiet-exhaust_key key_id = record { at = λ b r x. refl }

module _ {A : Type 0} {id : ℕ} where
  -- A pure test of the row
  pub Quiet-done : (f : Review → Outcome A) → Quiet id (λ r. done (f r, r))
  unfolding Holds
  Quiet-done f = record { at = λ b r. refl }

module _ {A B : Type 0} {id : ℕ} where
  quiet_with :
      (f : Outcome A → Action B) (b b' : Bool) (p : Outcome A × Review)
      → ((out : Outcome A) → Quiet id (f out))
      → b' ≡ b
      → Holds id (Same b) b' (with_outcome f p)
  quiet_with f b b' (out, r) d e = rw e ((d out).at b r)

  pub Quiet-after :
      (m : Action A) (f : Outcome A → Action B)
      → Quiet id m
      → ((out : Outcome A) → Quiet id (f out))
      → Quiet id (after m f)
  unfolding after
  Quiet-after m f c d = record {
    at = λ b r.
        Holds-bind id (m r) (with_outcome f) (Same b) (Same b) b (c.at b r)
          (λ b' p e. quiet_with f b b' p d e);
  }

  quiet_on :
      (f : A → Action B) (b b' : Bool) (p : Outcome A × Review)
      → ((a : A) → Quiet id (f a))
      → b' ≡ b
      → Holds id (Same b) b' (go_on f p)
  unfolding Holds
  quiet_on f b b' (value a, r) d e = rw e ((d a).at b r)
  quiet_on f b b' (failed x, r) d e = e

  pub Quiet-bind :
      (m : Action A) (f : A → Action B)
      → Quiet id m
      → ((a : A) → Quiet id (f a))
      → Quiet id (m >>= f)
  unfolding ◌>>=◌
  Quiet-bind m f c d = record {
    at = λ b r.
        Holds-bind id (m r) (go_on f) (Same b) (Same b) b (c.at b r)
          (λ b' p e. quiet_on f b b' p d e);
  }

pub ruleset quiet_rules = (
  Quiet-bind, Quiet-after, Quiet-if, Quiet-pure, Quiet-fail, Quiet-the_review, Quiet-set_review,
  Quiet-write, Quiet-inspect, Quiet-get_pr, Quiet-request, Quiet-list_files,
  Quiet-list_publications, Quiet-lease_owned, Quiet-context_error, Quiet-acquire_key,
  Quiet-exhaust_key, Quiet-done, refl,
)
