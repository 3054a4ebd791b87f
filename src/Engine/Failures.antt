-- ===== src/Engine/Failures.antt =====
-- internal/bot/engine.go: what a worker does with the error of a review.
use oc_review_bot.Common.{
  Bool, true, false, ◌&&◌, ◌||◌, Option, none, some, ℕ, ◌+◌, List, [], ◌∷◌, Bytes, codes, is_empty,
  leb, ltb, if◌then◌else◌,
}
use oc_review_bot.Store.Schema.{
  Review, Publication, PublicationStatus, sending, reconciliation_required, second,
  outbound_handoff_timeout,
}
use oc_review_bot.Store.History.{Work}
use oc_review_bot.Engine.Errors.{
  Failure, Outcome, value, failed, ErrorClass, publication_in_flight, errors_is,
  is_review_lease_lost, is_publication_reconcile, is_in_flight, is_review_not_ready,
  is_head_changed, is_review_access, is_quota, is_canceled, is_retryable_review_error,
  review_error_class, transient_retry_delay, max_delivery_attempts,
}
use oc_review_bot.Engine.Program.{
  lease_owned, context_error, list_publications, request, installation_token, react, Action, after,
  ◌>>=◌, ◌>>◌, pure, fail, keep, the_review,
}
use oc_review_bot.Engine.Checks.{
  write_review, review_side_effect_error, review_completion_side_effect_error,
}
use oc_review_bot.Engine.Publish.{
  publication_unresolved, unresolved, find_publication, require_found, mark_posted, claim_for_send,
}

abbrev pub review_access_revoked_message : Bytes
review_access_revoked_message =
    codes "Review access was removed before this queued request could run."

abbrev pub invalid_model_message : Bytes
invalid_model_message =
    codes
      "The configured review model is no longer valid. An administrator must update it in the dashboard before retrying."

abbrev head_changed_message : Bytes
head_changed_message =
    codes
      "The pull request changed before the review could complete. Mention the bot again to review the latest revision."

abbrev pub reconciliation_review_error : Bytes
reconciliation_review_error =
    codes
      "A GitHub delivery may have succeeded, but its local acknowledgement was not durable. Operator reconciliation is required before retrying."

module _ {A : Type 0} where
  -- The error of the part is only logged.
  abbrev pub ignore : Action A → Action (Unit {0})
  ignore m = after m (λ out. pure tt)

-- Whether the service lease is owned.
abbrev owned : Action Bool
owned r = lease_owned (λ b. keep r (value b))

abbrev pub landed : Outcome Bool → Action Bool
landed (value b) = pure true
landed (failed e) = pure false

abbrev pub record_failure : Bytes → Bool → Action Bool
record_failure message true =
    after (write_review (λ r. Work.finish_review_failed r.id r.execution_generation message)) landed
record_failure message false = pure false

-- `failReview`: whether the update of this worker landed.
unfoldable pub fail_review : Bytes → Action Bool
unfolding after write_review
fail_review message = do still ← owned; record_failure message still

abbrev reaction : Bytes → Action Bytes
reaction content r = request (react r.repo_full r.trigger_comment_id content) (keep r)

abbrev pub token_for_review : Action Bytes
token_for_review r = request (installation_token r.installation_id r.repository_id) (keep r)

abbrev pub react_unless_done : Bytes → Option Failure → Action (Unit {0})
react_unless_done token (some e) = pure tt
react_unless_done token none =
    if is_empty token
    then ignore (token_for_review >> reaction (codes "-1"))
    else ignore (reaction (codes "-1"))

abbrev context_of : Action (Option Failure)
context_of r = context_error (λ e. keep r (value e))

abbrev pub react_if : Bytes → Bool → Action (Unit {0})
react_if token true = do e ← context_of; react_unless_done token e
react_if token false = pure tt

-- `signalReviewFailure`
unfoldable pub signal_review_failure : Bytes → Action (Unit {0})
unfolding after
signal_review_failure token = do r ← the_review; react_if token (leb 1 r.trigger_comment_id)

abbrev pub signal_if : Bytes → Bool → Action (Unit {0})
signal_if token was_failed = if was_failed then signal_review_failure token else pure tt

-- A terminal failure, which the requester sees.
abbrev pub fail_and_signal : Bytes → Bytes → Action (Unit {0})
fail_and_signal token message = do was_failed ← fail_review message; signal_if token was_failed

-- `failHeadChanged`
unfoldable pub fail_head_changed : Action (Unit {0})
unfolding fail_review after
fail_head_changed = ignore (fail_review head_changed_message)

-- `uncertainDeliveryStatus`
abbrev pub uncertain_delivery_status : PublicationStatus → Bool
uncertain_delivery_status sending = true
uncertain_delivery_status reconciliation_required = true
uncertain_delivery_status _ = false

-- The claim on a publication that was being sent, before its marker is searched for.
abbrev pub settle_claim : Outcome Bool → Action (Unit {0})
settle_claim (value true) = pure tt
settle_claim (value false) = fail (publication_unresolved (publication_in_flight ∷ []))
settle_claim (failed e) =
    if errors_is is_publication_reconcile e then pure tt else fail (publication_unresolved e)

abbrev pub take_over_sending : Publication → PublicationStatus → Action (Unit {0})
take_over_sending p sending = after (claim_for_send p) settle_claim
take_over_sending p _ = pure tt

abbrev pub resolve : Publication → Action (Unit {0})
resolve p = do
  take_over_sending p p.status
  unresolved review_side_effect_error
  found ← unresolved (find_publication p)
  comment_id ← require_found found
  unresolved review_side_effect_error
  unresolved (mark_posted p comment_id)
  pure tt

unfoldable pub resolve_all : List Publication → Action (Unit {0})
unfolding review_side_effect_error find_publication write_review after
resolve_all [] = pure tt
resolve_all (p ∷ ps) = do
  if uncertain_delivery_status p.status then resolve p else pure tt
  resolve_all ps

-- `reconcilePreparedPublications`
unfoldable pub reconcile_prepared_publications : Action (Unit {0})
unfolding resolve_all after
reconcile_prepared_publications = do
  publications ← unresolved (λ r. list_publications r.id (keep r))
  resolve_all publications

-- What becomes of a review after an error.
pub data Verdict : Type 0 where
  leave reconcile head_moved revoked : Verdict
  retry : ℕ → Verdict
  terminal : Bytes → Verdict

-- The cooldown of a key, and the class of an error as text.
module _ (zen_cooldown : ℕ) (pi : Bool) (failure_text : ErrorClass → Bytes) where
  unfoldable pub retry_delay : Failure → ℕ
  retry_delay e =
      if errors_is is_in_flight e
      then outbound_handoff_timeout + second
      else if errors_is is_quota e && leb 1 zen_cooldown
      then zen_cooldown
      else transient_retry_delay

  unfoldable pub verdict : Failure → Review → Verdict
  unfolding retry_delay
  verdict e r =
      if errors_is is_review_lease_lost e
      then leave
      else if errors_is is_publication_reconcile e
          || r.publication_prepared && (errors_is is_in_flight e || errors_is is_review_not_ready e)
      then reconcile
      else if errors_is is_head_changed e
      then head_moved
      else if errors_is is_review_access e
      then revoked
      else if is_retryable_review_error e && ltb r.execution_generation max_delivery_attempts
      then retry (retry_delay e)
      else if errors_is is_canceled e
      then leave
      else terminal (failure_text (review_error_class e pi))

  unfoldable pub carry_out : Bytes → Verdict → Action (Unit {0})
  unfolding fail_head_changed fail_review signal_review_failure write_review after
  carry_out token leave = pure tt
  carry_out token reconcile = ignore (
      write_review (λ r.
        Work.finish_review_reconciliation_required r.id r.execution_generation
          reconciliation_review_error))
  carry_out token head_moved = fail_head_changed
  carry_out token revoked = fail_and_signal token review_access_revoked_message
  carry_out token (retry delay) =
      ignore (write_review (λ r. Work.requeue_review r.id r.execution_generation delay))
  carry_out token (terminal message) = fail_and_signal token message

  -- `handleReviewError`
  unfoldable pub handle_review_error : Bytes → Failure → Action (Unit {0})
  unfolding verdict carry_out
  handle_review_error token e = do
    still ← owned
    r ← the_review
    if still then carry_out token (verdict e r) else pure tt

  abbrev pub release : Bytes → Outcome (Unit {0}) → Action (Unit {0})
  release token (value u) = fail_head_changed
  release token (failed e) = handle_review_error token e

  -- `handlePreparedHeadChanged`
  unfoldable pub handle_prepared_head_changed : Bytes → Action (Unit {0})
  unfolding reconcile_prepared_publications fail_head_changed handle_review_error after
  handle_prepared_head_changed token = after reconcile_prepared_publications (release token)

abbrev pub react_rocket : Outcome (Unit {0}) → Action (Unit {0})
react_rocket (value u) = ignore (reaction (codes "rocket"))
react_rocket (failed e) = pure tt

-- `finishPublishedReview`
unfoldable pub finish_published_review : Action (Unit {0})
unfolding review_completion_side_effect_error after
finish_published_review = after review_completion_side_effect_error react_rocket

-- The reaction that acknowledges the request
abbrev pub acknowledge : Action (Unit {0})
acknowledge = ignore (reaction (codes "eyes"))
