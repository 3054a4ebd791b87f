-- ===== src/Engine/Budget.antt =====
-- The credit of a program for the posts of one publication: a recorded start of its send earns one
-- unit, and its POST costs one.
pub mod Rules
pub mod Checks
pub mod Publish
pub mod Review
pub mod Worker
pub mod Nudge
use oc_review_bot.Common.{
  ℕ, ◌+◌, ◌-◌, ◌≤◌, Bool, true, false, ◌&&◌, none, some, ◌==◌, if◌then◌else◌, arith,
}
use oc_review_bot.Store.History.{Work}
use oc_review_bot.Engine.Errors.{Outcome, value, failed}
use oc_review_bot.Engine.Program.{Program, Post, publication_post, nudge_post, bind}

abbrev pub earn_if : Bool → Outcome Bool → ℕ
earn_if true (value b) = 1
earn_if _ _ = 0

module _ (id : ℕ) where
  -- Whether a write records the start of a send of the publication
  abbrev pub starts_send : Work → Bool
  starts_send (Work.begin_publication_send review_id g publication_id) = publication_id == id
  starts_send _ = false

  abbrev pub cost : Post → ℕ
  cost (publication_post p) = if p.id == id then 1 else 0
  cost (nudge_post n) = 0

  module _ {A : Type 0} where
    -- With the credit `k` every POST is covered, and `j` is left at the end.
    unfoldable pub Covers : ℕ → ℕ → Program A → Type 0
    Covers k j (Program.done a) = j ≤ k
    Covers k j (Program.lease_owned f) = (x : Bool) → Covers k j (f x)
    Covers k j (Program.context_error f) = (x : _) → Covers k j (f x)
    Covers k j (Program.write owner fence w f) =
        (x : Outcome Bool) → Covers (earn_if (starts_send w) x + k) j (f x)
    Covers k j (Program.inspect t f) = (x : _) → Covers k j (f x)
    Covers k j (Program.list_publications i f) = (x : _) → Covers k j (f x)
    Covers k j (Program.request r f) = (x : _) → Covers k j (f x)
    Covers k j (Program.get_pr r n f) = (x : _) → Covers k j (f x)
    Covers k j (Program.list_files r n f) = (x : _) → Covers k j (f x)
    Covers k j (Program.find_marker c r n m f) = (x : _) → Covers k j (f x)
    Covers k j (Program.create_comment p r n f) =
        (cost p ≤ k) × ((x : _) → Covers (k - cost p) j (f x))
    Covers k j (Program.model_setting f) = (x : _) → Covers k j (f x)
    Covers k j (Program.acquire_key f) = (x : _) → Covers k j (f x)
    Covers k j (Program.exhaust_key i f) = (x : _) → Covers k j (f x)
    Covers k j (Program.run_agent o f) = (x : _) → Covers k j (f x)

    -- More credit does no harm.
    pub Covers-more : (m : Program A) (k l j : ℕ) → k ≤ l → Covers k j m → Covers l j m
    unfolding Covers
    Covers-more (Program.done a) k l j h c = omega arith
    Covers-more (Program.lease_owned f) k l j h c = λ x. Covers-more (f x) k l j h (c x)
    Covers-more (Program.context_error f) k l j h c = λ x. Covers-more (f x) k l j h (c x)
    Covers-more (Program.write owner fence w f) k l j h c =
        λ x. Covers-more (f x) _ _ j (omega arith) (c x)
    Covers-more (Program.inspect t f) k l j h c = λ x. Covers-more (f x) k l j h (c x)
    Covers-more (Program.list_publications i f) k l j h c = λ x. Covers-more (f x) k l j h (c x)
    Covers-more (Program.request r f) k l j h c = λ x. Covers-more (f x) k l j h (c x)
    Covers-more (Program.get_pr r n f) k l j h c = λ x. Covers-more (f x) k l j h (c x)
    Covers-more (Program.list_files r n f) k l j h c = λ x. Covers-more (f x) k l j h (c x)
    Covers-more (Program.find_marker c r n m f) k l j h d = λ x. Covers-more (f x) k l j h (d x)
    Covers-more (Program.create_comment p r n f) k l j h c =
        (omega (arith, c.0), λ x. Covers-more (f x) _ _ j (omega arith) (c.1 x))
    Covers-more (Program.model_setting f) k l j h c = λ x. Covers-more (f x) k l j h (c x)
    Covers-more (Program.acquire_key f) k l j h c = λ x. Covers-more (f x) k l j h (c x)
    Covers-more (Program.exhaust_key i f) k l j h c = λ x. Covers-more (f x) k l j h (c x)
    Covers-more (Program.run_agent o f) k l j h c = λ x. Covers-more (f x) k l j h (c x)

  module _ {A B : Type 0} where
    pub Covers-bind :
        (m : Program A) (g : A → Program B) (k j l : ℕ)
        → Covers k j m
        → ((a : A) → Covers j l (g a))
        → Covers k l (bind m g)
    unfolding Covers bind
    Covers-bind (Program.done a) g k j l c d = Covers-more (g a) j k l c (d a)
    Covers-bind (Program.lease_owned f) g k j l c d = λ x. Covers-bind (f x) g _ j l (c x) d
    Covers-bind (Program.context_error f) g k j l c d = λ x. Covers-bind (f x) g _ j l (c x) d
    Covers-bind (Program.write owner fence w f) g k j l c d = λ x. Covers-bind (f x) g _ j l (c x) d
    Covers-bind (Program.inspect t f) g k j l c d = λ x. Covers-bind (f x) g _ j l (c x) d
    Covers-bind (Program.list_publications i f) g k j l c d = λ x. Covers-bind (f x) g _ j l (c x) d
    Covers-bind (Program.request r f) g k j l c d = λ x. Covers-bind (f x) g _ j l (c x) d
    Covers-bind (Program.get_pr r n f) g k j l c d = λ x. Covers-bind (f x) g _ j l (c x) d
    Covers-bind (Program.list_files r n f) g k j l c d = λ x. Covers-bind (f x) g _ j l (c x) d
    Covers-bind (Program.find_marker c r n m f) g k j l e d = λ x. Covers-bind (f x) g _ j l (e x) d
    Covers-bind (Program.create_comment p r n f) g k j l c d =
        (c.0, λ x. Covers-bind (f x) g _ j l (c.1 x) d)
    Covers-bind (Program.model_setting f) g k j l c d = λ x. Covers-bind (f x) g _ j l (c x) d
    Covers-bind (Program.acquire_key f) g k j l c d = λ x. Covers-bind (f x) g _ j l (c x) d
    Covers-bind (Program.exhaust_key i f) g k j l c d = λ x. Covers-bind (f x) g _ j l (c x) d
    Covers-bind (Program.run_agent o f) g k j l c d = λ x. Covers-bind (f x) g _ j l (c x) d
