-- ===== src/Tests/Histories.antt =====
-- internal/store: a worker that takes a review from its delivery to its publication.
use oc_review_bot.Common.{
  ◌&&◌, ◌==◌, ℕ, ◌+◌, ◌*◌, ◌≡◌, ◌≤◌, refl, false, none, List, [], ◌∷◌, Bytes, codes, text_eq,
  is_empty, has_prefix, trim_space, trim_left, trim_right, trim_left_backwards, to_lower,
}
use oc_review_bot.Store.Schema.{
  empty_db, Review, ReviewAdmission, PublicationPlan, second, queued, is_posted,
}
use oc_review_bot.Store.Table.{count_where, update_where, first_where, all_where, next_id}
use oc_review_bot.Store.Tx.{
  ◌>>=◌, pure, rollback, gets, modify, require, commit, commit_with, transact,
}
use oc_review_bot.Store.Lease
use oc_review_bot.Store.Reviews
use oc_review_bot.Store.Publications
use oc_review_bot.Store.Publications.{Tokens}
use oc_review_bot.Store.Admission
use oc_review_bot.Store.Admission.{is_active_for, no_limits, admitted}
use oc_review_bot.Store.History.{
  Call, acquire_lease, admit_review, work, claim_next_queued_review, set_review_execution,
  prepare_review_publication, claim_publication_for_send, begin_publication_send,
  mark_publication_posted, finish_review_done, run, step, perform,
}
use oc_review_bot.Store.Listing.{list_review_publications}
use oc_review_bot.Store.Listing.Order.{IsOrdered, list_review_publications-IsOrdered}
use oc_review_bot.Store.SendOnce.{sends, send_of, is_ok, sent_at_most_once}
use oc_review_bot.Store.Completion.{IsComplete, is_done_id, done_is_fully_posted}
use oc_review_bot.Store.Uniqueness.{is_triggered_by, one_active_review, one_review_per_comment}
use oc_review_bot.Store.Permanence.{LaterDb, rows_are_permanent}

abbrev pub worker : Bytes
worker = codes "w1"

abbrev pub limits : ReviewAdmission
limits = record { user_per_hour = 2; repo_per_hour = 5; max_active = 3 }

abbrev pub request : ℕ → Review
request comment_id = record {
  id = 0;
  repo_full = codes "a/b";
  repository_id = 7;
  pr_number = 12;
  head_sha = [];
  head_revision = [];
  installation_id = 5;
  requester_github_id = 9;
  requester_login = codes "Ann";
  trigger_comment_id = comment_id;
  status = queued;
  model = codes "m";
  zen_key_id = 0;
  summary_md = [];
  error = [];
  summary_comment_id = 0;
  execution_generation = 0;
  service_lease_owner = [];
  claim_fence = 0;
  publication_token = [];
  publication_prepared = false;
  next_attempt_at = none;
  created_at = 0;
  started_at = none;
  finished_at = none;
}

abbrev pub tokens : Tokens
tokens n = (48 + n) ∷ []

abbrev pub plan : PublicationPlan
plan = record {
  summary_md = codes "ok";
  summary_body_md = codes "ok";
  commit_sha = codes "c0";
  findings =
      record {
        path = codes "x.go";
        line = 3;
        side = codes "RIGHT";
        severity = codes "error";
        finding_body_md = codes "f";
        comment_body_md = codes "g";
      }
      ∷ [];
}

abbrev pub history : List (ℕ × Call)
history =
    (second, acquire_lease worker (60 * second))
    ∷ (second, admit_review (request 40) (codes "d1") limits (codes "t"))
    ∷ (2 * second, work worker 1 claim_next_queued_review)
    ∷ (2 * second, work worker 1 (set_review_execution 1 1 (codes "m") 4))
    ∷ (3 * second, work worker 1 (prepare_review_publication 1 1 plan tokens))
    ∷ (3 * second, work worker 1 (claim_publication_for_send 1 1 1))
    ∷ (4 * second, work worker 1 (begin_publication_send 1 1 1))
    ∷ (4 * second, work worker 1 (begin_publication_send 1 1 1))
    ∷ (5 * second, work worker 1 (mark_publication_posted 1 1 1 501))
    ∷ (5 * second, work worker 1 (claim_publication_for_send 1 1 2))
    ∷ (5 * second, work worker 1 (begin_publication_send 1 1 2))
    ∷ (6 * second, work worker 1 (mark_publication_posted 1 1 2 502))
    ∷ (6 * second, work worker 1 (finish_review_done 1 1))
    ∷ []

sent_at_most_once_example : sends 1 history empty_db ≤ 1
sent_at_most_once_example = sent_at_most_once history 1

done_is_fully_posted_example : IsComplete 1 (run history empty_db)
done_is_fully_posted_example = done_is_fully_posted history 1

one_active_review_example : count_where (is_active_for 7 12) (run history empty_db).reviews ≤ 1
one_active_review_example = one_active_review history 7 12

one_review_per_comment_example :
    count_where (is_triggered_by 7 40) (run history empty_db).reviews ≤ 1
one_review_per_comment_example = one_review_per_comment history 7 40

-- What comes after the history: another request, and calls on the review that is done.
abbrev afterwards : List (ℕ × Call)
afterwards =
    (7 * second, admit_review (request 41) (codes "d2") limits (codes "u"))
    ∷ (7 * second, work worker 1 claim_next_queued_review)
    ∷ (8 * second, work worker 1 (finish_review_done 1 1))
    ∷ (8 * second, work worker 1 (mark_publication_posted 1 1 2 503))
    ∷ []

rows_are_permanent_example : LaterDb (run history empty_db) (run afterwards (run history empty_db))
rows_are_permanent_example = rows_are_permanent afterwards (run history empty_db)

-- The review of the history is done, and its two publications are posted.
one_done : count_where (is_done_id 1) (run history empty_db).reviews ≡ 1
unfolding run step perform sends send_of is_ok update_where count_where first_where all_where
    next_id ◌>>=◌ pure rollback gets modify require commit commit_with transact text_eq is_empty
    has_prefix trim_space trim_left trim_right trim_left_backwards to_lower
    Lease.validate_service_lease_owner Lease.validate_service_lease
    Lease.validate_service_lease_term Lease.is_free Lease.is_held Lease.is_valid_owner
    Lease.acquire_service_lease_with_fence Lease.service_lease_current_tx
    Lease.require_service_lease_tx Reviews.update_reviews Reviews.require_review_mutation
    Reviews.oldest_where Reviews.is_fully_posted Reviews.is_claimed_by
    Reviews.review_lease_current_tx Reviews.require_review_lease_tx Reviews.claim_review
    Reviews.claim_next_queued_review Reviews.set_review_execution Reviews.finish_review_done
    Publications.publication_marker Publications.with_marker Publications.publication_conflicts
    Publications.insert_publication Publications.insert_finding
    Publications.is_valid_publication_finding Publications.update_publications
    Publications.publication_row Publications.summary_row Publications.inline_row
    Publications.finding_row Publications.prepare_findings Publications.prepare_review_publication
    Publications.give_up_send Publications.claim_pending Publications.claim_publication_for_send
    Publications.is_claimed_pending Publications.begin_publication_send
    Publications.update_publication_target Publications.is_owned_publication
    Publications.post_publication Publications.mark_publication_posted Admission.is_valid_identity
    Admission.claim_delivery Admission.count_reviews_since Admission.is_conflicting
    Admission.active_review_of Admission.insert_review Admission.create_review_with_admission
one_done = refl

-- The second start of the same send is refused.
one_send : sends 1 history empty_db ≡ 1
unfolding run step perform sends send_of is_ok update_where count_where first_where all_where
    next_id ◌>>=◌ pure rollback gets modify require commit commit_with transact text_eq is_empty
    has_prefix trim_space trim_left trim_right trim_left_backwards to_lower
    Lease.validate_service_lease_owner Lease.validate_service_lease
    Lease.validate_service_lease_term Lease.is_free Lease.is_held Lease.is_valid_owner
    Lease.acquire_service_lease_with_fence Lease.service_lease_current_tx
    Lease.require_service_lease_tx Reviews.update_reviews Reviews.require_review_mutation
    Reviews.oldest_where Reviews.is_fully_posted Reviews.is_claimed_by
    Reviews.review_lease_current_tx Reviews.require_review_lease_tx Reviews.claim_review
    Reviews.claim_next_queued_review Reviews.set_review_execution Reviews.finish_review_done
    Publications.publication_marker Publications.with_marker Publications.publication_conflicts
    Publications.insert_publication Publications.insert_finding
    Publications.is_valid_publication_finding Publications.update_publications
    Publications.publication_row Publications.summary_row Publications.inline_row
    Publications.finding_row Publications.prepare_findings Publications.prepare_review_publication
    Publications.give_up_send Publications.claim_pending Publications.claim_publication_for_send
    Publications.is_claimed_pending Publications.begin_publication_send
    Publications.update_publication_target Publications.is_owned_publication
    Publications.post_publication Publications.mark_publication_posted Admission.is_valid_identity
    Admission.claim_delivery Admission.count_reviews_since Admission.is_conflicting
    Admission.active_review_of Admission.insert_review Admission.create_review_with_admission
one_send = refl

list_review_publications-IsOrdered_example :
    IsOrdered (list_review_publications 1 (run history empty_db))
    × (count_where (λ p. is_posted p.status) (list_review_publications 1 (run history empty_db))
        ≡ count_where
            (λ p. p.review_id == 1 && is_posted p.status)
            (run history empty_db).publications)
list_review_publications-IsOrdered_example =
    list_review_publications-IsOrdered 1 (run history empty_db) (λ p. is_posted p.status)
