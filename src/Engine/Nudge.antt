-- ===== src/Engine/Nudge.antt =====
-- internal/bot/engine.go: the worker of a claimed access notification.
use oc_review_bot.Common.{
  Bool, true, false, ◌&&◌, ◌||◌, Option, none, some, ℕ, ◌+◌, [], ◌∷◌, Bytes, ltb, if◌then◌else◌,
}
use oc_review_bot.Store.Schema.{Nudge, summary, second, outbound_handoff_timeout, is_some}
use oc_review_bot.Store.Nudges.{nudge_lease_current, nudge_marker}
use oc_review_bot.Store.History.{Work}
use oc_review_bot.Server.Webhook.{Config, allows_review_target}
use oc_review_bot.Engine.Errors.{
  Failure, Outcome, value, failed, canceled, errors_is, is_nudge_lease_lost, is_nudge_reconcile,
  is_deadline_exceeded, is_retryable, transient_retry_delay, max_delivery_attempts,
}
use oc_review_bot.Engine.Program.{
  Program, done, lease_owned, write, inspect, request, installation_token, get_pr, find_marker,
  create_comment, nudge_post, bind,
}
use oc_review_bot.Engine.Checks.{may_process, verify_pr_target}

-- The worker's copy of the row, with whether it requires reconciliation and has a start of a send.
pub record Copy : Type 0 where
  pub nudge : Nudge
  pub reconciliation_required : Bool
  pub is_sent : Bool

abbrev pub End : Type 0
End = Program (Unit {0})

abbrev pub stop : End
stop = done tt

abbrev pub write_nudge : Copy → Work → (Outcome Bool → End) → End
write_nudge c w = write c.nudge.service_lease_owner c.nudge.claim_fence w

abbrev pub ends : Outcome Bool → End
ends out = stop

abbrev pub if_owned : End → End
if_owned m = lease_owned (λ owned. if owned then m else stop)

-- `failNudge`
unfoldable pub fail_nudge : Copy → End
fail_nudge c =
    if_owned (write_nudge c (Work.finish_nudge_failed c.nudge.id c.nudge.execution_generation) ends)

abbrev pub mark_reconciliation : Copy → End
mark_reconciliation c =
    write_nudge c (Work.mark_nudge_reconciliation_required c.nudge.id c.nudge.execution_generation)
      ends

abbrev pub nudge_retry_delay : Copy → ℕ
nudge_retry_delay c = if c.is_sent then outbound_handoff_timeout + second else transient_retry_delay

-- `handleNudgeError`
unfoldable pub handle_nudge_error : Copy → Failure → End
unfolding fail_nudge
handle_nudge_error c e = if_owned (
    if errors_is is_nudge_lease_lost e || errors_is is_nudge_reconcile e
    then stop
    else if c.reconciliation_required || c.is_sent
    then mark_reconciliation c
    else if (is_retryable e || errors_is is_deadline_exceeded e)
        && ltb c.nudge.execution_generation max_delivery_attempts
    then write_nudge c
        (Work.requeue_nudge c.nudge.id c.nudge.execution_generation (nudge_retry_delay c)) ends
    else fail_nudge c)

module _ {A : Type 0} where
  abbrev pub or_handled : Copy → (A → End) → Outcome A → End
  or_handled c next (value a) = next a
  or_handled c next (failed e) = handle_nudge_error c e

-- Ends the worker unless it still may process.
abbrev pub when_may : End → End
when_may m = bind may_process (λ may. if may then m else stop)

-- An interrupted worker handles a cancellation.
abbrev pub when_may_or_canceled : Copy → End → End
when_may_or_canceled c m =
    bind may_process (λ may. if may then m else handle_nudge_error c (canceled ∷ []))

abbrev pub with_repository : Copy → Bytes → Copy
with_repository c repo = record c { nudge = record c.nudge { repo_full = repo } }

-- Reads the pull request, verifies it and stores its repository.
abbrev pub verify_target : Copy → (Copy → End) → End
verify_target c next = get_pr c.nudge.repo_full c.nudge.pr_number (
    or_handled c (λ pr.
      or_handled c
        (λ repo.
          write_nudge (with_repository c repo)
            (Work.set_nudge_repository c.nudge.id c.nudge.execution_generation repo)
            (or_handled (with_repository c repo) (λ b. next (with_repository c repo))))
        (verify_pr_target c.nudge.repository_id c.nudge.pr_number pr)))

abbrev pub post_nudge : Copy → (ℕ → End) → End
post_nudge c next =
    create_comment (nudge_post c.nudge) c.nudge.repo_full c.nudge.pr_number (or_handled c next)

abbrev pub is_current : Outcome Bool → Bool
is_current (value b) = b
is_current (failed e) = false

-- The POST stands behind the record of its start and a last check of the lease.
abbrev pub send_nudge : Copy → (Copy → ℕ → End) → End
send_nudge c next =
    write_nudge c (Work.mark_nudge_sending c.nudge.id c.nudge.execution_generation) (
      or_handled c (λ b.
        let sent : Copy = record c { is_sent = true } in
        inspect
          (λ now db.
            (nudge_lease_current c.nudge.service_lease_owner c.nudge.claim_fence now c.nudge.id
              c.nudge.execution_generation db).0)
          (λ out.
            if is_current out
            then when_may_or_canceled sent (post_nudge sent (next sent))
            else handle_nudge_error sent (canceled ∷ []))))

abbrev pub after_nudge_mark : Copy → Outcome Bool → End
after_nudge_mark c (value b) = stop
after_nudge_mark c (failed e) = handle_nudge_error c e

abbrev pub mark_nudge : Copy → ℕ → End
mark_nudge c comment_id =
    write_nudge c (Work.mark_nudge_posted c.nudge.id c.nudge.execution_generation comment_id)
      (after_nudge_mark c)

abbrev pub after_last_mark : Copy → Outcome Bool → End
after_last_mark c (value b) = stop
after_last_mark c (failed e) =
    if errors_is is_nudge_lease_lost e then stop else handle_nudge_error c e

abbrev pub complete_nudge : Copy → ℕ → End
complete_nudge c comment_id = when_may_or_canceled c (
    write_nudge c (Work.mark_nudge_posted c.nudge.id c.nudge.execution_generation comment_id)
      (after_last_mark c))

abbrev pub after_search : Copy → Bool → Option ℕ → End
after_search c true none = mark_reconciliation c
after_search c true (some comment_id) = mark_nudge c comment_id
after_search c false (some comment_id) = complete_nudge c comment_id
after_search c false none = when_may (verify_target c (λ v. send_nudge v complete_nudge))

module _ (cfg : Config) where
  abbrev search_marker : Copy → End
  search_marker c =
      find_marker summary c.nudge.repo_full c.nudge.pr_number
        (nudge_marker c.nudge.publication_token)
        (or_handled c (after_search c c.reconciliation_required))

  abbrev prepare_nudge : Copy → End
  prepare_nudge c = when_may (
      request (installation_token c.nudge.installation_id c.nudge.repository_id)
        (or_handled c (λ token. when_may (verify_target c (λ v. when_may (search_marker v))))))

  abbrev process_copy : Copy → End
  process_copy c = when_may (
      if allows_review_target cfg c.nudge.installation_id c.nudge.repository_id
      then prepare_nudge c
      else fail_nudge c)

  -- `processClaimedNudge` of the row and whether it was waiting for reconciliation
  unfoldable pub process_claimed_nudge : Nudge → Bool → End
  unfolding handle_nudge_error fail_nudge verify_pr_target
  process_claimed_nudge n reconciling = process_copy (record {
    nudge = n;
    reconciliation_required = reconciling;
    is_sent = is_some n.send_started_at;
  })
