-- ===== src/Engine/Settlement/Tidy.antt =====
-- internal/bot/engine.go: the parts of a worker after which a publication is settled, or an error says
-- that it is not.
use oc_review_bot.Common.{ℕ, ◌≡◌, refl, Bool, true, false, none, some, Option, arith, if◌then◌else◌}
use oc_review_bot.Store.Schema.{Review, Publication}
use oc_review_bot.Store.History.{Work}
use oc_review_bot.Engine.Errors.{
  Failure, Outcome, value, failed, errors_is, is_publication_reconcile,
}
use oc_review_bot.Engine.Program.{Action, after, with_outcome, go_on, ◌>>=◌, pure, fail}
use oc_review_bot.Engine.Checks.{review_side_effect_error, write_review}
use oc_review_bot.Engine.Publish.{
  find_publication, create_publication, unresolved, or_unresolved, require_found, mark_posted,
  reconcile_publication,
}
use oc_review_bot.Engine.Settlement.{Holds, Holds-bind, Holds-weaken, unsettled_after}
use oc_review_bot.Engine.Settlement.Rules.{Quiet, quiet_rules, Same}
use oc_review_bot.Engine.Settlement.Checks.{Quiet-review_side_effect_error}

module _ {A : Type 0} where
  abbrev pub is_unresolved : Outcome A → Bool
  is_unresolved (value a) = false
  is_unresolved (failed e) = errors_is is_publication_reconcile e

  -- Where the publication is unsettled, the outcome is an error with ErrPublicationReconcile.
  abbrev pub Strict : Bool → Outcome A × Review → Type 0
  Strict b (out, r) = b ≡ true → is_unresolved out ≡ true

-- From a settled publication the part comes to an end that is strict.
pub record Tidy {A : Type 0} (id : ℕ) (m : Action A) : Type 0 where
  pub at : (r : Review) → Holds id Strict false (m r)

module _ {A B : Type 0} {id : ℕ} where
  pub tidy_on :
      (f : A → Action B) (b : Bool) (p : Outcome A × Review)
      → ((a : A) → Tidy id (f a))
      → Strict b p
      → Holds id Strict b (go_on f p)
  unfolding Holds
  tidy_on f false (value a, r) d h = (d a).at r
  tidy_on f true (value a, r) d h = ground (arith, h refl)
  tidy_on f b (failed e, r) d h = h

  pub Tidy-bind :
      (m : Action A) (f : A → Action B) → Tidy id m → ((a : A) → Tidy id (f a)) → Tidy id (m >>= f)
  unfolding ◌>>=◌
  Tidy-bind m f c d = record {
    at = λ r.
        Holds-bind id (m r) (go_on f) Strict Strict false (c.at r) (λ b p h. tidy_on f b p d h);
  }

  tidy_with :
      (f : Outcome A → Action B) (b : Bool) (p : Outcome A × Review)
      → ((out : Outcome A) → Tidy id (f out))
      → b ≡ false
      → Holds id Strict b (with_outcome f p)
  tidy_with f b (out, r) d e = rw e ((d out).at r)

  pub Tidy-after :
      (m : Action A) (f : Outcome A → Action B)
      → Quiet id m
      → ((out : Outcome A) → Tidy id (f out))
      → Tidy id (after m f)
  unfolding after
  Tidy-after m f c d = record {
    at = λ r.
        Holds-bind id (m r) (with_outcome f) (Same false) Strict false (c.at false r)
          (λ b p e. tidy_with f b p d e);
  }

module _ {A : Type 0} where
  still_settled : (b : Bool) (p : Outcome A × Review) → b ≡ false → Strict b p
  still_settled true p e h = ground arith
  still_settled false p e h = ground arith

module _ {A : Type 0} {id : ℕ} where
  pub Tidy-Quiet : (m : Action A) → Quiet id m → Tidy id m
  Tidy-Quiet m c = record {
    at = λ r. Holds-weaken id (m r) (Same false) Strict false (c.at false r) still_settled;
  }

  pub Tidy-if :
      {yes no : Action A} (test : Bool)
      → Tidy id yes
      → Tidy id no
      → Tidy id (if test then yes else no)
  Tidy-if true c d = c
  Tidy-if false c d = d

  pub Tidy-pure : (a : A) → Tidy id (pure a)
  unfolding pure Holds
  Tidy-pure a = record { at = λ r e. ground arith }

  pub Tidy-fail : (e : Failure) → Tidy id (fail {A = A} e)
  unfolding fail Holds
  Tidy-fail e = record { at = λ r h. ground arith }

unresolved_on :
    {A : Type 0} (id : ℕ) (b : Bool) (p : Outcome A × Review)
    → Strict b p
    → Holds id Strict b (with_outcome or_unresolved p)
unfolding Holds pure fail
unresolved_on id b (value a, r) h = h
unresolved_on id b (failed e, r) h = λ k. refl

module _ {id : ℕ} where
  pub Tidy-write :
      (w : Review → Work)
      → ((r : Review) (x : Outcome Bool) → unsettled_after id false (w r) x ≡ false)
      → Tidy id (write_review w)
  unfolding write_review Holds
  Tidy-write w h = record { at = λ r. (refl, λ x. still_settled _ (x, r) (h r x)) }

  pub Tidy-mark_posted : (p : Publication) (comment_id : ℕ) → Tidy id (mark_posted p comment_id)
  Tidy-mark_posted p comment_id = Tidy-write _ mark
    where
      mark :
          (r : Review) (x : Outcome Bool)
          → unsettled_after id false
              (Work.mark_publication_posted r.id r.execution_generation p.id comment_id)
              x
            ≡ false
      mark r (value b) = refl
      mark r (failed e) = refl

  pub Quiet-find_publication : (p : Publication) → Quiet id (find_publication p)
  unfolding find_publication Holds
  Quiet-find_publication p = record { at = λ b r x. refl }

  pub Quiet-create_publication : (p : Publication) → Quiet id (create_publication p)
  unfolding create_publication Holds
  Quiet-create_publication p = record { at = λ b r x. refl }

  pub Quiet-or_unresolved : {A : Type 0} (out : Outcome A) → Quiet id (or_unresolved out)
  Quiet-or_unresolved (value a) = search quiet_rules
  Quiet-or_unresolved (failed e) = search quiet_rules

  pub Quiet-require_found : (found : Option ℕ) → Quiet id (require_found found)
  Quiet-require_found none = search quiet_rules
  Quiet-require_found (some comment_id) = search quiet_rules

  -- An error that is joined with ErrPublicationReconcile stays strict.
  pub Tidy-unresolved : {A : Type 0} (m : Action A) → Tidy id m → Tidy id (unresolved m)
  unfolding after
  Tidy-unresolved m c = record {
    at = λ r.
        Holds-bind id (m r) (with_outcome or_unresolved) Strict Strict false (c.at r)
          (unresolved_on id);
  }

  pub Quiet-unresolved_check : Quiet id (unresolved review_side_effect_error)
  Quiet-unresolved_check = search (quiet_rules, Quiet-or_unresolved, Quiet-review_side_effect_error)

  pub Tidy-reconcile_publication : (p : Publication) → Tidy id (reconcile_publication p)
  unfolding reconcile_publication
  Tidy-reconcile_publication p = Tidy-bind _ _ (Tidy-Quiet _ Quiet-unresolved_check) (λ u.
      Tidy-bind _ _
        (Tidy-Quiet _ (search (quiet_rules, Quiet-or_unresolved, Quiet-find_publication)))
        (λ found. Tidy-bind _ _ (Tidy-Quiet _ (Quiet-require_found found)) (λ comment_id.
          Tidy-bind _ _ (Tidy-Quiet _ Quiet-unresolved_check) (λ v.
            Tidy-bind _ _ (Tidy-unresolved _ (Tidy-mark_posted p comment_id))
              (λ w. Tidy-pure tt)))))
