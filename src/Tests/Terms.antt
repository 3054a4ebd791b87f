-- ===== src/Tests/Terms.antt =====
-- internal/store: workers that take the service lease one after the other.
use oc_review_bot.Common.{
  ℕ, ◌*◌, ◌<◌, ◌≡◌, refl, some, none, List, [], ◌∷◌, Bytes, codes, arith, text_eq, is_empty,
  trim_space, trim_left, trim_right, trim_left_backwards,
}
use oc_review_bot.Store.Schema.{Db, ServiceLease, empty_db, second}
use oc_review_bot.Store.Tx.{ok, ◌>>=◌, gets, modify, require, commit, transact}
use oc_review_bot.Store.Lease.{
  is_valid_owner, validate_service_lease_owner, validate_service_lease, is_free, is_held,
  acquire_service_lease_with_fence,
}
use oc_review_bot.Store.History.{
  Call, acquire_lease, admit_review, work, claim_next_queued_review, recover_interrupted_reviews,
  run, step, perform,
}
use oc_review_bot.Store.Fencing.{stale_worker_changes_nothing}
use oc_review_bot.Store.Terms.{lease_excludes, grants_increase, is_own}
use oc_review_bot.Tests.Histories.{worker, request, limits}

abbrev successor : Bytes
successor = codes "w2"

abbrev first_term : ServiceLease
first_term = record { owner_token = worker; fence = 1; expires_at = 61 * second }

abbrev second_term : ServiceLease
second_term = record { owner_token = successor; fence = 2; expires_at = 130 * second }

abbrev under_first : List (ℕ × Call)
under_first =
    (second, admit_review (request 40) (codes "d1") limits (codes "t"))
    ∷ (2 * second, work worker 1 claim_next_queued_review)
    ∷ (3 * second, acquire_lease successor (60 * second))
    ∷ []

lease_excludes_example :
    (acquire_service_lease_with_fence successor
      (60 * second)
      (60 * second)
      (run under_first (acquire_service_lease_with_fence worker (60 * second) second empty_db).1)).0
    ≡ ok none
unfolding acquire_service_lease_with_fence validate_service_lease validate_service_lease_owner
    is_free is_valid_owner ◌>>=◌ gets modify require commit transact is_empty trim_space trim_left
    trim_right trim_left_backwards is_own
lease_excludes_example =
    lease_excludes worker successor (60 * second) (60 * second) second (60 * second) under_first
      empty_db first_term refl
      ((omega arith, refl), ((omega arith, refl), ((omega arith, refl), tt))) (omega arith) refl
      (omega arith)

grants_increase_example : first_term.fence < second_term.fence
unfolding run step acquire_service_lease_with_fence validate_service_lease
    validate_service_lease_owner is_free is_valid_owner ◌>>=◌ gets modify require commit transact
    is_empty trim_space trim_left trim_right trim_left_backwards
grants_increase_example =
    grants_increase worker successor (60 * second) (60 * second) second (70 * second)
      ((3 * second, acquire_lease successor (60 * second)) ∷ []) empty_db first_term second_term
      refl refl

abbrev running_first : List (ℕ × Call)
running_first =
    (second, acquire_lease worker (60 * second))
    ∷ (second, admit_review (request 40) (codes "d1") limits (codes "t"))
    ∷ (2 * second, work worker 1 claim_next_queued_review)
    ∷ []

-- A database whose review runs under the first term, after the second was granted.
abbrev handed_over : Db
handed_over = record (run running_first empty_db) { lease = some second_term }

stale_worker_changes_nothing_example :
    perform worker 1 (71 * second) recover_interrupted_reviews handed_over ≡ handed_over
unfolding is_held text_eq
stale_worker_changes_nothing_example =
    stale_worker_changes_nothing worker 1 (71 * second) recover_interrupted_reviews handed_over refl
