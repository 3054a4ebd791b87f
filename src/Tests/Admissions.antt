-- ===== src/Tests/Admissions.antt =====
-- internal/store/reviews.go: deliveries that ask for reviews.
use oc_review_bot.Common.{
  ℕ, List, [], ◌∷◌, ◌*◌, ◌≡◌, ◌≤◌, refl, true, codes, arith, ◌==◌, text_eq, is_empty, trim_space,
  trim_left, trim_right, trim_left_backwards,
}
use oc_review_bot.Store.Schema.{Db, ReviewCreateResult, empty_db, second}
use oc_review_bot.Store.Table.{count_where, next_id, all_where}
use oc_review_bot.Store.Tx.{Result, ok, ◌>>=◌, pure, gets, modify, require, commit, transact}
use oc_review_bot.Store.Admission.{
  no_result, is_valid_identity, claim_delivery, count_reviews_since, is_conflicting,
  active_review_of, insert_review, active_count, create_review_with_admission, no_limits,
}
use oc_review_bot.Store.Capacity.{replay_creates_nothing, created_within_limits}
use oc_review_bot.Store.History.{Call, acquire_lease, work, claim_next_queued_review, run}
use oc_review_bot.Tests.Histories.{worker, request, limits}

abbrev created : ReviewCreateResult
created = record no_result { created = true }

abbrev admit : Result ReviewCreateResult × Db
admit = create_review_with_admission (request 40) (codes "d1") limits (codes "t") second empty_db

abbrev between : List (ℕ × Call)
between =
    (second, acquire_lease worker (60 * second))
    ∷ (2 * second, work worker 1 claim_next_queued_review)
    ∷ []

replay_creates_nothing_example :
    create_review_with_admission
      (request 41)
      (codes "d1")
      no_limits
      (codes "u")
      (2 * second)
      (run between admit.1)
    ≡ (ok (record no_result { duplicate_delivery = true }), run between admit.1)
unfolding create_review_with_admission is_valid_identity claim_delivery count_reviews_since
    is_conflicting active_review_of insert_review count_where next_id all_where ◌>>=◌ pure gets
    modify require commit transact text_eq is_empty trim_space trim_left trim_right
    trim_left_backwards
replay_creates_nothing_example =
    replay_creates_nothing (request 40) (request 41) (codes "d1") (codes "t") (codes "u") limits
      no_limits second (2 * second) empty_db created between refl refl (refl, (refl, tt)) refl

created_within_limits_example :
    (count_reviews_since (λ q. q.requester_github_id == 9) second admit.1.reviews ≤ 2)
    × (count_reviews_since (λ q. q.repository_id == 7) second admit.1.reviews ≤ 5)
    × (active_count admit.1.reviews ≤ 3)
unfolding create_review_with_admission is_valid_identity claim_delivery count_reviews_since
    is_conflicting active_review_of insert_review count_where next_id all_where ◌>>=◌ pure gets
    modify require commit transact text_eq is_empty trim_space trim_left trim_right
    trim_left_backwards
created_within_limits_example =
    created_within_limits (request 40) (codes "d1") (codes "t") limits second empty_db created refl
      (omega arith) (omega arith) (omega arith) refl refl
