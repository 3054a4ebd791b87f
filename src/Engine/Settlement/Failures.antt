-- ===== src/Engine/Settlement/Failures.antt =====
-- internal/bot/engine.go: `handleReviewError` after an uncertain delivery.
use oc_review_bot.Common.{ℕ, ◌≡◌, refl, inl, inr, Bool, true, false, not, Bytes, Bool-cases}
use oc_review_bot.Store.Schema.{Review}
use oc_review_bot.Store.History.{Work}
use oc_review_bot.Engine.Errors.{
  Failure, Outcome, ErrorClass, errors_is, is_publication_reconcile, is_review_lease_lost,
}
use oc_review_bot.Engine.Program.{Program, ◌>>=◌, pure, the_review, after, bind}
use oc_review_bot.Engine.Checks.{write_review}
use oc_review_bot.Engine.Failures.{
  verdict, carry_out, handle_review_error, reconciliation_review_error,
}

module _ (r : Review) {A : Type 0} where
  -- The program asks whether the service lease is held, and its one write moves the review, at its
  -- generation and under its term, into reconciliation: it is made if and only if it is due, that is
  -- the lease is held and `due` was true. There is no other call.
  unfoldable pub Reconciles : Bool → Program A → Type 0
  Reconciles due (Program.done a) = due ≡ false
  Reconciles due (Program.lease_owned f) = Reconciles due (f true) × Reconciles false (f false)
  Reconciles due (Program.write owner fence w f) =
      (due ≡ true)
      × (owner ≡ r.service_lease_owner)
      × (fence ≡ r.claim_fence)
      × (w
          ≡ Work.finish_review_reconciliation_required r.id r.execution_generation
              reconciliation_review_error)
      × ((x : Outcome Bool) → Reconciles false (f x))
  Reconciles due _ = ⊥

-- After an error that is ErrPublicationReconcile, whatever else it is and whatever the calls answer,
-- `handleReviewError` makes no call but a look at the service lease and, when the lease is held and
-- the error is not ErrReviewLeaseLost as well, one write, which moves the review, at its generation
-- and under its term, into reconciliation. So it neither finishes, fails nor requeues the review, and
-- begins, posts or settles no send.
pub handle_review_error-Reconciles :
    (zen_cooldown : ℕ) (pi : Bool) (failure_text : ErrorClass → Bytes) (token : Bytes) (e : Failure)
    (r : Review)
    → errors_is is_publication_reconcile e ≡ true
    → Reconciles r
        (not (errors_is is_review_lease_lost e))
        (handle_review_error zen_cooldown pi failure_text token e r)
unfolding handle_review_error verdict carry_out Reconciles write_review ◌>>=◌ after bind pure
    the_review
handle_review_error-Reconciles zen_cooldown pi failure_text token e r h =
    elim (Bool-cases (errors_is is_review_lease_lost e)) [
      | inl l ↦ rw l (refl, refl)
      | inr l ↦ rw (l, h) ((refl, refl, refl, refl, λ x. refl), refl)
    ]
