-- ===== src/Engine/Settlement/Publish.antt =====
-- internal/bot/engine.go: `publishPrepared` does not leave a publication unsettled in silence.
use oc_review_bot.Common.{ℕ, refl, Bool, true, false, none, some, Option, List, [], ◌∷◌, Bytes}
use oc_review_bot.Store.Schema.{
  Review, Publication, PublicationStatus, pending, sending, posted, reconciliation_required,
}
use oc_review_bot.Engine.Errors.{Outcome, value, failed}
use oc_review_bot.Engine.Publish.{
  require_posted, look_again, deliver, after_claim, claim_for_send, claim_and_deliver,
  publish_by_status, publish_all, publish_prepared,
}
use oc_review_bot.Engine.Settlement.{Holds}
use oc_review_bot.Engine.Settlement.Rules.{Quiet, quiet_rules}
use oc_review_bot.Engine.Settlement.Tidy.{
  Strict, Tidy, Tidy-bind, Tidy-after, Tidy-Quiet, Tidy-if, Tidy-pure, Tidy-fail, Tidy-write,
  Tidy-reconcile_publication, Quiet-find_publication,
}
use oc_review_bot.Engine.Settlement.Window.{Tidy-send}
use oc_review_bot.Engine.Settlement.Checks.{
  Quiet-process_error, Quiet-review_side_effect_error, Quiet-ensure_current_head,
}

module _ {id : ℕ} (equal_fold : Bytes → Bytes → Bool) (digest : Bytes → Bytes) where
  Quiet-look_again :
      (p : Publication) (found : Option ℕ) → Quiet id (look_again equal_fold digest p found)
  Quiet-look_again p (some comment_id) = search quiet_rules
  Quiet-look_again p none = search (
    quiet_rules, Quiet-review_side_effect_error, Quiet-ensure_current_head, Quiet-find_publication,
  )

  Tidy-deliver : (p : Publication) → Tidy id (deliver equal_fold digest p)
  unfolding deliver
  Tidy-deliver p =
      Tidy-bind _ _ (Tidy-Quiet _ (Quiet-ensure_current_head equal_fold digest p.commit_sha)) (λ pr.
        Tidy-bind _ _ (Tidy-Quiet _ Quiet-review_side_effect_error) (λ u.
          Tidy-bind _ _ (Tidy-Quiet _ (Quiet-find_publication p)) (λ first.
            Tidy-bind _ _ (Tidy-Quiet _ (Quiet-look_again p first))
              (λ found. Tidy-send id p equal_fold digest found))))

  Quiet-require_posted : (was_posted : Bool) → Quiet id (require_posted was_posted)
  Quiet-require_posted was_posted = search quiet_rules

  Tidy-after_claim :
      (p : Publication) (out : Outcome Bool) → Tidy id (after_claim equal_fold digest p out)
  Tidy-after_claim p (failed e) = Tidy-if _ (Tidy-reconcile_publication p) (Tidy-fail e)
  Tidy-after_claim p (value true) = Tidy-deliver p
  Tidy-after_claim p (value false) = Tidy-Quiet _ (search (quiet_rules, Quiet-require_posted))

  Quiet-claim_for_send : (p : Publication) → Quiet id (claim_for_send p)
  Quiet-claim_for_send p = search quiet_rules

  Tidy-claim_and_deliver : (p : Publication) → Tidy id (claim_and_deliver equal_fold digest p)
  Tidy-claim_and_deliver p =
      Tidy-bind _ _ (Tidy-Quiet _ Quiet-process_error)
        (λ u. Tidy-after _ _ (Quiet-claim_for_send p) (Tidy-after_claim p))

  Tidy-publish_by_status :
      (p : Publication) (status : PublicationStatus)
      → Tidy id (publish_by_status equal_fold digest p status)
  Tidy-publish_by_status p posted = Tidy-pure tt
  Tidy-publish_by_status p reconciliation_required = Tidy-reconcile_publication p
  Tidy-publish_by_status p pending = Tidy-claim_and_deliver p
  Tidy-publish_by_status p sending = Tidy-claim_and_deliver p

  Tidy-publish_all : (ps : List Publication) → Tidy id (publish_all equal_fold digest ps)
  unfolding publish_all
  Tidy-publish_all [] = Tidy-pure tt
  Tidy-publish_all (p ∷ ps) =
      Tidy-bind _ _ (Tidy-publish_by_status p p.status) (λ u. Tidy-publish_all ps)

  Tidy-publish_prepared : Tidy id (publish_prepared equal_fold digest)
  unfolding publish_prepared
  Tidy-publish_prepared = Tidy-bind _ _ (Tidy-Quiet _ (search quiet_rules)) (λ ps.
      Tidy-bind _ _ (Tidy-publish_all ps)
        (λ u. Tidy-bind _ _ (Tidy-Quiet _ Quiet-process_error) (λ v. Tidy-write _ (λ r x. refl))))

-- Whatever its calls answer, `publishPrepared` neither finishes, fails nor requeues the review while a
-- publication is unsettled, that is this run of it recorded the begin of its send and has not marked
-- it as posted since; and if one is unsettled when the run ends, it ends with an error that is
-- ErrPublicationReconcile. A send that an earlier run began does not count here.
pub publish_prepared-Holds :
    (equal_fold : Bytes → Bytes → Bool) (digest : Bytes → Bytes) (id : ℕ) (r : Review)
    → Holds id Strict false (publish_prepared equal_fold digest r)
publish_prepared-Holds equal_fold digest id r = (Tidy-publish_prepared equal_fold digest).at r
