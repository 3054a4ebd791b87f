-- ===== src/Server/Webhook.antt =====
-- internal/server/webhook.go: the handler of a comment, with internal/config/config.go's access policy
-- and internal/store's users and events. `lower` is strings.ToLower and `equal_fold`
-- strings.EqualFold, of the Go library. A response is the message it writes.
pub mod Gates
pub mod Access
pub mod Reviews
use oc_review_bot.Common.{
  ℕ, suc, ◌+◌, Bool, true, false, not, ◌&&◌, ◌||◌, Option, none, some, List, [], ◌∷◌, ◌++◌, Bytes,
  codes, is_empty, to_lower, leb, ltb, ◌==◌, if◌then◌else◌, any, length,
}
use oc_review_bot.Store.Schema.{
  Db, Review, Nudge, NudgeKind, registration, entitlement, NudgeStatus, NudgeCreateResult,
  ReviewAdmission, ReviewCreateResult, ReviewStatus, rfc3339,
}
use oc_review_bot.Store.Table.{first_where, next_id}
use oc_review_bot.Store.Tx.{Result, ok, err}
use oc_review_bot.Store.Admission.{create_review_with_admission}
use oc_review_bot.Store.Nudges.{create_nudge_once}
use oc_review_bot.Server.Names.{valid_github_login, valid_repo_full_name, mentions_bot}

-- The number of the issue, which may be below 1.
pub data IssueNumber : Type 0 where
  pos : ℕ → IssueNumber
  negsuc : ℕ → IssueNumber

-- `issueCommentEvent`
pub record IssueComment : Type 0 where
  pub comment_id : ℕ
  pub comment_body : Bytes
  pub number : IssueNumber
  pub is_pull_request : Bool
  pub repo_full_name : Bytes
  pub repo_id : ℕ
  pub installation_id : ℕ
  pub sender_login : Bytes
  pub sender_type : Bytes
  pub sender_id : ℕ

-- The settings of internal/config that the handler reads.
pub record Config : Type 0 where
  pub bot_username : Bytes
  pub installation_ids : List ℕ
  pub repository_ids : List ℕ
  pub admin_github_ids : List ℕ
  pub reviewer_github_ids : List ℕ
  pub admission : ReviewAdmission

pub record User : Type 0 where
  pub id : ℕ
  pub github_id : ℕ
  pub login : Bytes
  pub avatar_url : Bytes
  pub is_admin : Bool
  pub created_at : ℕ

pub record ReviewEvent : Type 0 where
  pub id : ℕ
  pub review_id : ℕ
  pub kind : Bytes
  pub message : Bytes
  pub created_at : ℕ

-- What the handler reads and writes.
pub record World : Type 0 where
  pub db : Db
  pub users : List User
  pub events : List ReviewEvent

pub data Answer : Type 0 where
  not_a_pull_request bad_payload ignored_target non_human_comment no_mention missing_delivery :
      Answer
  db_failed duplicate_delivery registration_required review_access_required : Answer
  capacity_unavailable review_already_active review_enqueued : Answer

-- What is handed to the engine.
pub data Handoff : Type 0 where
  nothing : Handoff
  enqueue enqueue_nudge : ℕ → Handoff

abbrev pub contains_id : List ℕ → ℕ → Bool
contains_id ids value = any (λ id. id == value) ids

unfoldable pub allows_review_target : Config → ℕ → ℕ → Bool
allows_review_target c installation_id repository_id =
    contains_id c.installation_ids installation_id && contains_id c.repository_ids repository_id

unfoldable pub can_request_review : Config → ℕ → ℕ → ℕ → Bool
unfolding allows_review_target
can_request_review c github_id installation_id repository_id =
    if not (allows_review_target c installation_id repository_id)
    then false
    else contains_id c.admin_github_ids github_id || contains_id c.reviewer_github_ids github_id

unfoldable pub user_by_github_id : ℕ → List User → Option User
user_by_github_id github_id = first_where (λ u. u.github_id == github_id)

abbrev pub is_zero : IssueNumber → Bool
is_zero (pos n) = n == 0
is_zero (negsuc n) = false

-- The number of a pull request; the handler uses it where it is above 0.
abbrev pub pr_of : IssueNumber → ℕ
pr_of (pos n) = n
pr_of (negsuc n) = 0

unfoldable pub valid_issue_comment_identity : IssueComment → Bool
valid_issue_comment_identity ev =
    leb 1 ev.comment_id
    && (leb 1 (pr_of ev.number)
        && (leb 1 ev.repo_id
            && (leb 1 ev.installation_id
                && (leb 1 ev.sender_id
                    && (valid_github_login ev.sender_login
                        && valid_repo_full_name ev.repo_full_name)))))

abbrev pub requested : IssueComment → Review
requested ev = record {
  id = 0;
  repo_full = ev.repo_full_name;
  repository_id = ev.repo_id;
  pr_number = pr_of ev.number;
  head_sha = [];
  head_revision = [];
  installation_id = ev.installation_id;
  requester_github_id = ev.sender_id;
  requester_login = to_lower ev.sender_login;
  trigger_comment_id = ev.comment_id;
  status = ReviewStatus.queued;
  model = [];
  zen_key_id = 0;
  summary_md = [];
  error = [];
  summary_comment_id = 0;
  execution_generation = 0;
  service_lease_owner = [];
  claim_fence = 0;
  publication_token = [];
  publication_prepared = false;
  next_attempt_at = none;
  created_at = 0;
  started_at = none;
  finished_at = none;
}

abbrev pub access_nudge : IssueComment → NudgeKind → Nudge
access_nudge ev kind = record {
  id = 0;
  repo_full = ev.repo_full_name;
  repository_id = ev.repo_id;
  pr_number = pr_of ev.number;
  installation_id = ev.installation_id;
  requester_github_id = ev.sender_id;
  requester_login = to_lower ev.sender_login;
  kind = kind;
  publication_token = [];
  status = NudgeStatus.queued;
  execution_generation = 0;
  service_lease_owner = [];
  claim_fence = 0;
  posted_comment_id = 0;
  next_attempt_at = none;
  created_at = 0;
  posted_at = none;
  send_started_at = none;
}

abbrev pub required_answer : NudgeKind → Answer
required_answer registration = registration_required
required_answer entitlement = review_access_required

abbrev pub answer_nudge :
    NudgeKind → World → Result NudgeCreateResult × Db → Answer × Handoff × World
answer_nudge kind w (err e, db) = (db_failed, nothing, record w { db = db })
answer_nudge kind w (ok result, db) =
    if result.duplicate_delivery then (duplicate_delivery, nothing, record w { db = db }) else (
      required_answer kind,
      if result.created then enqueue_nudge (next_id (λ n. n.id) w.db.nudges) else nothing,
      record w { db = db },
    )

-- `AppendReviewEvent`
unfoldable pub append_review_event : ℕ → Bytes → Bytes → ℕ → List ReviewEvent → List ReviewEvent
append_review_event review_id kind message now events =
    events
    ++ record {
      id = next_id (λ e. e.id) events;
      review_id = review_id;
      kind = kind;
      message = message;
      created_at = rfc3339 now;
    }
      ∷ []

-- A created review has the id that its insertion gave it.
abbrev pub answer_review :
    Bytes → ℕ → World → Result ReviewCreateResult × Db → Answer × Handoff × World
answer_review login now w (err e, db) = (db_failed, nothing, record w { db = db })
answer_review login now w (ok result, db) =
    if result.duplicate_delivery
    then (duplicate_delivery, nothing, record w { db = db })
    else if not result.created
    then (
      if result.rate_limited || result.queue_full
          then capacity_unavailable
          else review_already_active,
      nothing,
      record w { db = db },
    )
    else (
      review_enqueued,
      enqueue (next_id (λ r. r.id) w.db.reviews),
      record w {
        db = db;
        events =
            append_review_event (next_id (λ r. r.id) w.db.reviews) (codes "request")
              (codes "Review requested by " ++ login) now w.events;
      },
    )

module _ (lower : Bytes → Bytes) (equal_fold : Bytes → Bytes → Bool) (cfg : Config) where
  -- The early returns of `handleIssueComment`, which touch nothing.
  unfoldable pub early_answer : IssueComment → Bytes → Option Answer
  early_answer ev delivery_id =
      if not ev.is_pull_request || is_zero ev.number
      then some not_a_pull_request
      else if not (valid_issue_comment_identity ev)
      then some bad_payload
      else if not (allows_review_target cfg ev.installation_id ev.repo_id)
      then some ignored_target
      else if not (equal_fold ev.sender_type (codes "User"))
      then some non_human_comment
      else if not (mentions_bot lower ev.comment_body cfg.bot_username)
      then some no_mention
      else if is_empty delivery_id
      then some missing_delivery
      else none

  -- `queueNudge`; `token` is the random token that the store draws.
  unfoldable pub queue_nudge :
      IssueComment → Bytes → NudgeKind → Bytes → ℕ → World → Answer × Handoff × World
  queue_nudge ev delivery_id kind token now w =
      answer_nudge kind w (create_nudge_once (access_nudge ev kind) delivery_id token now w.db)

  -- The rest of `handleIssueComment`.
  unfoldable pub admit_comment :
      IssueComment → Bytes → Bytes → ℕ → World → Option User → Answer × Handoff × World
  unfolding queue_nudge
  admit_comment ev delivery_id token now w none =
      queue_nudge ev delivery_id registration token now w
  admit_comment ev delivery_id token now w (some user) =
      if not (can_request_review cfg ev.sender_id ev.installation_id ev.repo_id)
      then queue_nudge ev delivery_id entitlement token now w
      else answer_review (to_lower ev.sender_login) now w
          (create_review_with_admission (requested ev) delivery_id cfg.admission token now w.db)

  abbrev go_on : IssueComment → Bytes → Bytes → ℕ → World → Option Answer → Answer × Handoff × World
  go_on ev delivery_id token now w (some answer) = (answer, nothing, w)
  go_on ev delivery_id token now w none =
      admit_comment ev delivery_id token now w (user_by_github_id ev.sender_id w.users)

  unfoldable pub handle_issue_comment :
      IssueComment → Bytes → Bytes → ℕ → World → Answer × Handoff × World
  unfolding early_answer admit_comment
  handle_issue_comment ev delivery_id token now w =
      go_on ev delivery_id token now w (early_answer ev delivery_id)
