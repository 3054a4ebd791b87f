-- ===== src/Engine/Budget/Publish.antt =====
-- internal/bot/engine.go: the delivery of a publication posts only what it has recorded the start of.
use oc_review_bot.Common.{
  ℕ, ◌+◌, ◌≡◌, refl, Bool, true, false, none, some, Option, List, [], ◌∷◌, Bytes, arith, ◌==◌,
  if◌then◌else◌,
}
use oc_review_bot.Store.Schema.{
  Review, Publication, PublicationStatus, pending, sending, posted, reconciliation_required,
}
use oc_review_bot.Store.History.{Work}
use oc_review_bot.Engine.Errors.{Failure, Outcome, value, failed}
use oc_review_bot.Engine.Program.{Action, after, with_outcome, go_on, ◌>>=◌, bind, publication_post}
use oc_review_bot.Engine.Checks.{write_review}
use oc_review_bot.Engine.Publish.{
  find_publication, create_publication, publication_uncertain, or_unresolved, or_uncertain,
  join_mark, require_found, reconcile_publication, require_posted, look_again, send_unless_found,
  deliver, after_claim, claim_and_deliver, publish_by_status, publish_all, publish_prepared,
}
use oc_review_bot.Engine.Budget.{Covers, Covers-bind, cost, earn_if}
use oc_review_bot.Engine.Budget.Rules.{Neutral, neutral_rules, covers_with, Neutral-bind}
use oc_review_bot.Engine.Budget.Checks.{
  Neutral-process_error, Neutral-review_side_effect_error, Neutral-ensure_current_head,
}

-- A part that may use up the credit for one post of `p`.
pub record Pays {A : Type 0} (id : ℕ) (p : Publication) (m : Action A) : Type 0 where
  pub at : (k : ℕ) (r : Review) → Covers id (cost id (publication_post p) + k) k (m r)

module _ {A B : Type 0} {id : ℕ} {p : Publication} where
  Pays-after :
      (m : Action A) (f : Outcome A → Action B)
      → Pays id p m
      → ((out : Outcome A) → Neutral id (f out))
      → Pays id p (after m f)
  unfolding after
  Pays-after m f c d = record {
    at = λ k r. Covers-bind id (m r) (with_outcome f) _ k k (c.at k r) (covers_with f k d);
  }

  pays_on :
      (f : A → Action B) (k : ℕ)
      → ((a : A) → Pays id p (f a))
      → (q : Outcome A × Review) → Covers id (cost id (publication_post p) + k) k (go_on f q)
  unfolding Covers
  pays_on f k d (value a, r) = (d a).at k r
  pays_on f k d (failed e, r) = omega arith

  Pays-bind :
      (m : Action A) (f : A → Action B)
      → Neutral id m
      → ((a : A) → Pays id p (f a))
      → Pays id p (m >>= f)
  unfolding ◌>>=◌
  Pays-bind m f c d = record {
    at = λ k r. Covers-bind id (m r) (go_on f) _ _ k (c.at _ r) (pays_on f k d);
  }

earned : (test : Bool) (b : Bool) → earn_if test (value b) ≡ (if test then 1 else 0)
earned true b = refl
earned false b = refl

module _ {id : ℕ} where
  Pays-create_publication : (p : Publication) → Pays id p (create_publication p)
  unfolding create_publication Covers
  Pays-create_publication p = record { at = λ k r. (omega arith, λ x. omega arith) }

  begun :
      {A : Type 0} (p : Publication) (m : Action A) (k : ℕ) (r : Review) (x : Outcome Bool)
      → Pays id p m
      → Covers id (earn_if (p.id == id) x + k) k (go_on (λ b. m) (x, r))
  unfolding Covers
  begun p m k r (value b) c = rw (earned (p.id == id) b) (c.at k r)
  begun p m k r (failed e) c = omega arith

  -- The recorded start pays for the POST.
  Neutral-begin :
      {A : Type 0} (p : Publication) (m : Action A)
      → Pays id p m
      → Neutral id (
          write_review (λ r. Work.begin_publication_send r.id r.execution_generation p.id) >>= λ b.
          m)
  unfolding write_review ◌>>=◌ bind Covers
  Neutral-begin p m c = record { at = λ k r x. begun p m k r x c }

  pub Neutral-find_publication : (p : Publication) → Neutral id (find_publication p)
  unfolding find_publication Covers
  Neutral-find_publication p = record { at = λ k r x. omega arith }

  pub Neutral-or_unresolved : {A : Type 0} (out : Outcome A) → Neutral id (or_unresolved out)
  Neutral-or_unresolved (value a) = search neutral_rules
  Neutral-or_unresolved (failed e) = search neutral_rules

  pub Neutral-require_found : (found : Option ℕ) → Neutral id (require_found found)
  Neutral-require_found none = search neutral_rules
  Neutral-require_found (some comment_id) = search neutral_rules

pub ruleset resolving = (
  neutral_rules, Neutral-or_unresolved, Neutral-require_found, Neutral-find_publication,
  Neutral-review_side_effect_error,
)

module _ {id : ℕ} where
  Neutral-reconcile_publication : (p : Publication) → Neutral id (reconcile_publication p)
  unfolding reconcile_publication
  Neutral-reconcile_publication p = search resolving depth 20

  module _ {A : Type 0} where
    Neutral-join_mark : (e : Failure) (out : Outcome Bool) → Neutral id (join_mark {A = A} e out)
    Neutral-join_mark e (value b) = search neutral_rules
    Neutral-join_mark e (failed mark) = search neutral_rules

    Neutral-publication_uncertain :
        (p : Publication) (e : Failure) → Neutral id (publication_uncertain {A = A} p e)
    unfolding publication_uncertain
    Neutral-publication_uncertain p e = search (neutral_rules, Neutral-join_mark)

    Neutral-or_uncertain : (p : Publication) (out : Outcome A) → Neutral id (or_uncertain p out)
    Neutral-or_uncertain p (value a) = search neutral_rules
    Neutral-or_uncertain p (failed e) = search (neutral_rules, Neutral-publication_uncertain)

  Neutral-require_posted : (was_posted : Bool) → Neutral id (require_posted was_posted)
  Neutral-require_posted was_posted = search neutral_rules

  module _ (equal_fold : Bytes → Bytes → Bool) (digest : Bytes → Bytes) where
    Neutral-look_again :
        (p : Publication) (found : Option ℕ) → Neutral id (look_again equal_fold digest p found)
    Neutral-look_again p (some comment_id) = search neutral_rules
    Neutral-look_again p none = search (resolving, Neutral-ensure_current_head)

    Neutral-send_unless_found :
        (p : Publication) (found : Option ℕ)
        → Neutral id (send_unless_found equal_fold digest p found)
    unfolding send_unless_found
    Neutral-send_unless_found p (some comment_id) = search neutral_rules
    Neutral-send_unless_found p none =
        search
          (
            neutral_rules, Neutral-begin, Pays-after, Pays-bind, Pays-create_publication,
            Neutral-or_uncertain, Neutral-review_side_effect_error,
          )
          depth 20

    Neutral-deliver : (p : Publication) → Neutral id (deliver equal_fold digest p)
    unfolding deliver
    Neutral-deliver p =
        search
          (
            resolving, Neutral-look_again, Neutral-send_unless_found, Neutral-or_uncertain,
            Neutral-process_error, Neutral-ensure_current_head,
          )
          depth 20

    Neutral-after_claim :
        (p : Publication) (out : Outcome Bool) → Neutral id (after_claim equal_fold digest p out)
    Neutral-after_claim p (failed e) = search (neutral_rules, Neutral-reconcile_publication)
    Neutral-after_claim p (value true) = Neutral-deliver p
    Neutral-after_claim p (value false) = search (neutral_rules, Neutral-require_posted)

    Neutral-claim_and_deliver :
        (p : Publication) → Neutral id (claim_and_deliver equal_fold digest p)
    Neutral-claim_and_deliver p = search (neutral_rules, Neutral-process_error, Neutral-after_claim)

    Neutral-publish_by_status :
        (p : Publication) (status : PublicationStatus)
        → Neutral id (publish_by_status equal_fold digest p status)
    Neutral-publish_by_status p posted = search neutral_rules
    Neutral-publish_by_status p reconciliation_required = Neutral-reconcile_publication p
    Neutral-publish_by_status p pending = Neutral-claim_and_deliver p
    Neutral-publish_by_status p sending = Neutral-claim_and_deliver p

    Neutral-publish_all : (ps : List Publication) → Neutral id (publish_all equal_fold digest ps)
    unfolding publish_all
    Neutral-publish_all [] = search neutral_rules
    Neutral-publish_all (p ∷ ps) =
        Neutral-bind _ _ (Neutral-publish_by_status p p.status) (λ _. Neutral-publish_all ps)

    pub Neutral-publish_prepared : Neutral id (publish_prepared equal_fold digest)
    unfolding publish_prepared
    Neutral-publish_prepared =
        search (neutral_rules, Neutral-publish_all, Neutral-process_error) depth 20
