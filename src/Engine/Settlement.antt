-- ===== src/Engine/Settlement.antt =====
-- What becomes of a publication whose send a run begins: until the run marks it as posted it is
-- unsettled. The sends that earlier runs began are not counted.
pub mod Rules
pub mod Checks
pub mod Tidy
pub mod Window
pub mod Publish
pub mod Failures
use oc_review_bot.Common.{ℕ, ◌≡◌, Bool, true, false, not, ◌&&◌, ◌||◌, ◌==◌, if◌then◌else◌}
use oc_review_bot.Store.Schema.{Review}
use oc_review_bot.Store.History.{Work}
use oc_review_bot.Engine.Errors.{
  Failure, Outcome, value, failed, errors_is, is_publication_reconcile,
}
use oc_review_bot.Engine.Program.{Program, bind}

-- The writes that give the review up or end it
abbrev pub releases : Work → Bool
releases (Work.requeue_review id g delay) = true
releases (Work.finish_review_failed id g text) = true
releases (Work.finish_review_done id g) = true
releases _ = false

module _ (id : ℕ) where
  -- Whether the publication is unsettled after a write and its answer
  abbrev pub unsettled_after : Bool → Work → Outcome Bool → Bool
  unsettled_after b (Work.begin_publication_send review_id g p) (value x) = b || p == id
  unsettled_after b (Work.mark_publication_posted review_id g p c) (value x) = b && not (p == id)
  unsettled_after b _ _ = b

  module _ {A : Type 0} where
    -- No write releases the review while the publication is unsettled, and the end satisfies `Q`.
    unfoldable pub Holds : (Bool → A → Type 0) → Bool → Program A → Type 0
    Holds Q b (Program.done a) = Q b a
    Holds Q b (Program.lease_owned f) = (x : Bool) → Holds Q b (f x)
    Holds Q b (Program.context_error f) = (x : _) → Holds Q b (f x)
    Holds Q b (Program.write owner fence w f) =
        (b && releases w ≡ false) × ((x : Outcome Bool) → Holds Q (unsettled_after b w x) (f x))
    Holds Q b (Program.inspect t f) = (x : _) → Holds Q b (f x)
    Holds Q b (Program.list_publications i f) = (x : _) → Holds Q b (f x)
    Holds Q b (Program.request r f) = (x : _) → Holds Q b (f x)
    Holds Q b (Program.get_pr r n f) = (x : _) → Holds Q b (f x)
    Holds Q b (Program.list_files r n f) = (x : _) → Holds Q b (f x)
    Holds Q b (Program.find_marker c r n m f) = (x : _) → Holds Q b (f x)
    Holds Q b (Program.create_comment p r n f) = (x : _) → Holds Q b (f x)
    Holds Q b (Program.model_setting f) = (x : _) → Holds Q b (f x)
    Holds Q b (Program.acquire_key f) = (x : _) → Holds Q b (f x)
    Holds Q b (Program.exhaust_key i f) = (x : _) → Holds Q b (f x)
    Holds Q b (Program.run_agent o f) = (x : _) → Holds Q b (f x)

  module _ {A B : Type 0} where
    pub Holds-bind :
        (m : Program A) (g : A → Program B) (R : Bool → A → Type 0) (Q : Bool → B → Type 0)
        (b : Bool)
        → Holds R b m
        → ((b' : Bool) (a : A) → R b' a → Holds Q b' (g a))
        → Holds Q b (bind m g)
    unfolding Holds bind
    Holds-bind (Program.done a) g R Q b c d = d b a c
    Holds-bind (Program.lease_owned f) g R Q b c d = λ x. Holds-bind (f x) g R Q b (c x) d
    Holds-bind (Program.context_error f) g R Q b c d = λ x. Holds-bind (f x) g R Q b (c x) d
    Holds-bind (Program.write owner fence w f) g R Q b c d =
        (c.0, λ x. Holds-bind (f x) g R Q _ (c.1 x) d)
    Holds-bind (Program.inspect t f) g R Q b c d = λ x. Holds-bind (f x) g R Q b (c x) d
    Holds-bind (Program.list_publications i f) g R Q b c d = λ x. Holds-bind (f x) g R Q b (c x) d
    Holds-bind (Program.request r f) g R Q b c d = λ x. Holds-bind (f x) g R Q b (c x) d
    Holds-bind (Program.get_pr r n f) g R Q b c d = λ x. Holds-bind (f x) g R Q b (c x) d
    Holds-bind (Program.list_files r n f) g R Q b c d = λ x. Holds-bind (f x) g R Q b (c x) d
    Holds-bind (Program.find_marker i r n m f) g R Q b c d = λ x. Holds-bind (f x) g R Q b (c x) d
    Holds-bind (Program.create_comment p r n f) g R Q b c d = λ x. Holds-bind (f x) g R Q b (c x) d
    Holds-bind (Program.model_setting f) g R Q b c d = λ x. Holds-bind (f x) g R Q b (c x) d
    Holds-bind (Program.acquire_key f) g R Q b c d = λ x. Holds-bind (f x) g R Q b (c x) d
    Holds-bind (Program.exhaust_key i f) g R Q b c d = λ x. Holds-bind (f x) g R Q b (c x) d
    Holds-bind (Program.run_agent o f) g R Q b c d = λ x. Holds-bind (f x) g R Q b (c x) d

  module _ {A : Type 0} where
    pub Holds-weaken :
        (m : Program A) (R Q : Bool → A → Type 0) (b : Bool)
        → Holds R b m
        → ((b' : Bool) (a : A) → R b' a → Q b' a)
        → Holds Q b m
    unfolding Holds
    Holds-weaken (Program.done a) R Q b c d = d b a c
    Holds-weaken (Program.lease_owned f) R Q b c d = λ x. Holds-weaken (f x) R Q b (c x) d
    Holds-weaken (Program.context_error f) R Q b c d = λ x. Holds-weaken (f x) R Q b (c x) d
    Holds-weaken (Program.write owner fence w f) R Q b c d =
        (c.0, λ x. Holds-weaken (f x) R Q _ (c.1 x) d)
    Holds-weaken (Program.inspect t f) R Q b c d = λ x. Holds-weaken (f x) R Q b (c x) d
    Holds-weaken (Program.list_publications i f) R Q b c d = λ x. Holds-weaken (f x) R Q b (c x) d
    Holds-weaken (Program.request r f) R Q b c d = λ x. Holds-weaken (f x) R Q b (c x) d
    Holds-weaken (Program.get_pr r n f) R Q b c d = λ x. Holds-weaken (f x) R Q b (c x) d
    Holds-weaken (Program.list_files r n f) R Q b c d = λ x. Holds-weaken (f x) R Q b (c x) d
    Holds-weaken (Program.find_marker i r n m f) R Q b c d = λ x. Holds-weaken (f x) R Q b (c x) d
    Holds-weaken (Program.create_comment p r n f) R Q b c d = λ x. Holds-weaken (f x) R Q b (c x) d
    Holds-weaken (Program.model_setting f) R Q b c d = λ x. Holds-weaken (f x) R Q b (c x) d
    Holds-weaken (Program.acquire_key f) R Q b c d = λ x. Holds-weaken (f x) R Q b (c x) d
    Holds-weaken (Program.exhaust_key i f) R Q b c d = λ x. Holds-weaken (f x) R Q b (c x) d
    Holds-weaken (Program.run_agent o f) R Q b c d = λ x. Holds-weaken (f x) R Q b (c x) d
