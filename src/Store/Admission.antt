-- ===== src/Store/Admission.antt =====
-- internal/store/reviews.go: admission of a review by a webhook delivery, with its capacity limits
-- and the unique indexes of the reviews table. `token` is the random publication token that the
-- call draws. Logins are ASCII, where `to_lower` is strings.ToLower.
use oc_review_bot.Common.{
  ℕ, ◌-◌, Bool, true, false, not, ◌&&◌, ◌||◌, Option, none, some, List, [], ◌∷◌, ◌++◌, Bytes,
  text_eq, is_empty, trim_space, to_lower, leb, ltb, ◌==◌, if◌then◌else◌, any,
}
use oc_review_bot.Store.Schema.{
  Db, Review, ReviewAdmission, ReviewCreateResult, Delivery, queued, active_review,
  invalid_argument, rfc3339, hour, is_active, needs_reconciliation,
}
use oc_review_bot.Store.Table.{count_where, all_where, next_id}
use oc_review_bot.Store.Tx.{
  Result, Tx, ok, err, ◌>>=◌, ◌>>◌, pure, gets, modify, require, commit, transact,
}

abbrev pub no_result : ReviewCreateResult
no_result = record {
  created = false;
  duplicate_delivery = false;
  rate_limited = false;
  queue_full = false;
  reconciliation_required = false;
}

-- `validateReviewIdentity`
unfoldable pub is_valid_identity : Review → Bool
is_valid_identity r =
    not (is_empty r.repo_full)
    && (leb 1 r.repository_id
        && (leb 1 r.pr_number
            && (leb 1 r.installation_id
                && (leb 1 r.requester_github_id
                    && (not (is_empty r.requester_login) && leb 1 r.trigger_comment_id)))))

abbrev pub is_delivered : Bytes → List Delivery → Bool
is_delivered delivery_id = any (λ d. text_eq d.delivery_id delivery_id)

-- `claimDelivery`: INSERT ... ON CONFLICT(delivery_id) DO NOTHING
unfoldable pub claim_delivery : Bytes → ℕ → Tx Bool
claim_delivery delivery_id created_at = do
  seen ← gets (λ db. is_delivered delivery_id db.deliveries)
  modify (λ db. record db {
    deliveries =
        if seen
        then db.deliveries
        else db.deliveries ++ record { delivery_id = delivery_id; created_at = created_at } ∷ [];
  })
  pure (not seen)

-- The delivery is new: it is claimed unless it is empty.
abbrev pub admit_delivery : Bytes → ℕ → Tx Bool
admit_delivery delivery_id created_at =
    if is_empty delivery_id then pure true else claim_delivery delivery_id created_at

-- `countReviewsSince`
unfoldable pub count_reviews_since : (Review → Bool) → ℕ → List Review → ℕ
count_reviews_since test now = count_where (λ r. test r && leb (rfc3339 (now - hour)) r.created_at)

-- A limit of 0 is off.
abbrev pub is_exceeded : ℕ → ℕ → Bool
is_exceeded limit count = ltb 0 limit && leb limit count

abbrev pub user_is_limited : ReviewAdmission → Review → ℕ → List Review → Bool
user_is_limited a r now reviews =
    is_exceeded a.user_per_hour
      (count_reviews_since (λ q. q.requester_github_id == r.requester_github_id) now reviews)

abbrev pub repo_is_limited : ReviewAdmission → Review → ℕ → List Review → Bool
repo_is_limited a r now reviews =
    is_exceeded a.repo_per_hour
      (count_reviews_since (λ q. q.repository_id == r.repository_id) now reviews)

abbrev pub active_count : List Review → ℕ
active_count = count_where (λ q. is_active q.status)

-- idx_reviews_one_active_per_pr and idx_reviews_one_trigger_event: the inserted row is queued, and
-- its identities are positive.
unfoldable pub is_conflicting : Review → Review → Bool
is_conflicting r q =
    q.repository_id == r.repository_id
    && (is_active q.status && q.pr_number == r.pr_number
        || q.trigger_comment_id == r.trigger_comment_id)

abbrev pub is_active_for : ℕ → ℕ → Review → Bool
is_active_for repository_id pr_number q =
    q.repository_id == repository_id && (q.pr_number == pr_number && is_active q.status)

-- `ActiveReview`: the newest active row of the pull request
abbrev newest : List Review → Option Review
newest [] = none
newest (r ∷ rs) = elim (newest rs) [
  | none ↦ some r
  | some q ↦ if ltb q.id r.id then some r else some q
]

unfoldable pub active_review_of : ℕ → ℕ → List Review → Option Review
active_review_of repository_id pr_number reviews =
    newest (all_where (is_active_for repository_id pr_number) reviews)

abbrev pub blocks_reconciling : Option Review → Bool
blocks_reconciling none = false
blocks_reconciling (some q) = needs_reconciliation q.status

-- The row that an admission inserts; the other columns take their defaults.
abbrev pub admitted : Review → Bytes → ℕ → ℕ → Review
admitted r token now id = record {
  id = id;
  repo_full = r.repo_full;
  repository_id = r.repository_id;
  pr_number = r.pr_number;
  head_sha = r.head_sha;
  head_revision = [];
  installation_id = r.installation_id;
  requester_github_id = r.requester_github_id;
  requester_login = to_lower (trim_space r.requester_login);
  trigger_comment_id = r.trigger_comment_id;
  status = queued;
  model = r.model;
  zen_key_id = 0;
  summary_md = [];
  error = [];
  summary_comment_id = 0;
  execution_generation = 0;
  service_lease_owner = [];
  claim_fence = 0;
  publication_token = token;
  publication_prepared = false;
  next_attempt_at = none;
  created_at = rfc3339 now;
  started_at = none;
  finished_at = none;
}

unfoldable pub insert_review : Review → Bytes → ℕ → Tx (Result ReviewCreateResult)
insert_review r token now = do
  conflict ← gets (λ db. any (is_conflicting r) db.reviews)
  blocking ← gets (λ db. active_review_of r.repository_id r.pr_number db.reviews)
  if conflict
      then commit (record no_result { reconciliation_required = blocks_reconciling blocking })
      else (do
        modify (λ db. record db {
          reviews = db.reviews ++ admitted r token now (next_id (λ q. q.id) db.reviews) ∷ [];
        })
        commit (record no_result { created = true }))

unfoldable pub create_review_with_admission :
    Review → Bytes → ReviewAdmission → Bytes → ℕ → Db → Result ReviewCreateResult × Db
create_review_with_admission r delivery_id admission token now = transact (do
  require (is_valid_identity r) invalid_argument
  fresh ← admit_delivery (trim_space delivery_id) (rfc3339 now)
  if not fresh then commit (record no_result { duplicate_delivery = true }) else do
    reviews ← gets (λ db. db.reviews)
    if user_is_limited admission r now reviews || repo_is_limited admission r now reviews
        then commit (record no_result { rate_limited = true })
        else if is_exceeded admission.max_active (active_count reviews)
        then commit (record no_result { queue_full = true })
        else insert_review r token now)

abbrev pub no_limits : ReviewAdmission
no_limits = record { user_per_hour = 0; repo_per_hour = 0; max_active = 0 }

unfoldable pub create_review_once : Review → Bytes → Bytes → ℕ → Db → Result ReviewCreateResult × Db
create_review_once r delivery_id = create_review_with_admission r delivery_id no_limits

abbrev require_created : Result ReviewCreateResult × Db → Result (Unit {0}) × Db
require_created (err e, db) = (err e, db)
require_created (ok result, db) = (if result.created then ok tt else err active_review, db)

unfoldable pub create_review : Review → Bytes → ℕ → Db → Result (Unit {0}) × Db
create_review r token now db = require_created (create_review_once r [] token now db)

unfoldable pub purge_deliveries_before : ℕ → Db → ℕ × Db
purge_deliveries_before cutoff db = (
  count_where (λ d. ltb d.created_at (rfc3339 cutoff)) db.deliveries,
  record db { deliveries = all_where (λ d. leb (rfc3339 cutoff) d.created_at) db.deliveries },
)
