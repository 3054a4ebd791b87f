-- ===== src/Store/Schema.antt =====
-- internal/store: the rows of the tables, their statuses, the errors and the constants.
--
-- Identifiers, fences and counts (int64) are natural numbers; a value below 1 of the source is 0
-- here. Time is a number of nanoseconds. A column that holds an RFC3339 text is a number of whole
-- seconds, one in the lease layout a number of nanoseconds, and the empty text is `none`.
use oc_review_bot.Common.{
  ℕ, ◌-◌, ◌/◌, ◌*◌, Bool, true, false, Option, none, some, List, [], Bytes, leb,
}

abbrev pub second : ℕ
second = 1_000_000_000

-- t.UTC().Format(time.RFC3339), whose texts compare as the seconds do
abbrev pub rfc3339 : ℕ → ℕ
rfc3339 t = t / second

abbrev pub hour : ℕ
hour = 3600 * second

abbrev pub outbound_handoff_timeout : ℕ
outbound_handoff_timeout = 45 * second

abbrev pub reconciliation_retry_delay : ℕ
reconciliation_retry_delay = 300 * second

-- leaseDeadline
abbrev pub lease_deadline : ℕ → ℕ
lease_deadline at = at - outbound_handoff_timeout

pub data Error : Type 0 where
  not_found active_review review_not_queued review_lease_lost review_not_ready : Error
  publication_reconcile nudge_lease_lost nudge_reconcile unfenced_finding : Error
  service_lease_lost service_lease_required service_lease_fence : Error
  invalid_service_lease_owner invalid_service_lease_ttl : Error
  oauth_state_limit oauth_state_client_limit : Error
  invalid_argument unique_constraint no_rows : Error

-- The row of service_leases.
pub record ServiceLease : Type 0 where
  pub owner_token : Bytes
  pub fence : ℕ
  pub expires_at : ℕ

pub data ReviewStatus : Type 0 where
  queued running done failed reconciliation_required : ReviewStatus

pub record Review : Type 0 where
  pub id : ℕ
  pub repo_full : Bytes
  pub repository_id : ℕ
  pub pr_number : ℕ
  pub head_sha : Bytes
  pub head_revision : Bytes
  pub installation_id : ℕ
  pub requester_github_id : ℕ
  pub requester_login : Bytes
  pub trigger_comment_id : ℕ
  pub status : ReviewStatus
  pub model : Bytes
  pub zen_key_id : ℕ
  pub summary_md : Bytes
  pub error : Bytes
  pub summary_comment_id : ℕ
  pub execution_generation : ℕ
  pub service_lease_owner : Bytes
  pub claim_fence : ℕ
  pub publication_token : Bytes
  pub publication_prepared : Bool
  pub next_attempt_at : Option ℕ
  pub created_at : ℕ
  pub started_at : Option ℕ
  pub finished_at : Option ℕ

pub record Finding : Type 0 where
  pub id : ℕ
  pub review_id : ℕ
  pub path : Bytes
  pub line : ℕ
  pub side : Bytes
  pub severity : Bytes
  pub body_md : Bytes
  pub posted_comment_id : ℕ

pub data PublicationKind : Type 0 where
  summary inline : PublicationKind

pub data PublicationStatus : Type 0 where
  pending sending posted reconciliation_required : PublicationStatus

pub record Publication : Type 0 where
  pub id : ℕ
  pub review_id : ℕ
  pub kind : PublicationKind
  pub ordinal : ℕ
  pub marker : Bytes
  pub body_md : Bytes
  pub commit_sha : Bytes
  pub path : Bytes
  pub side : Bytes
  pub line : ℕ
  pub finding_id : ℕ
  pub status : PublicationStatus
  pub posted_comment_id : ℕ
  pub created_at : ℕ
  pub posted_at : Option ℕ
  pub service_lease_owner : Bytes
  pub service_lease_fence : ℕ
  pub send_started_at : Option ℕ

pub record PublicationFinding : Type 0 where
  pub path : Bytes
  pub line : ℕ
  pub side : Bytes
  pub severity : Bytes
  pub finding_body_md : Bytes
  pub comment_body_md : Bytes

pub record PublicationPlan : Type 0 where
  pub summary_md : Bytes
  pub summary_body_md : Bytes
  pub commit_sha : Bytes
  pub findings : List PublicationFinding

pub record ReviewAdmission : Type 0 where
  pub user_per_hour : ℕ
  pub repo_per_hour : ℕ
  pub max_active : ℕ

pub record ReviewCreateResult : Type 0 where
  pub created : Bool
  pub duplicate_delivery : Bool
  pub rate_limited : Bool
  pub queue_full : Bool
  pub reconciliation_required : Bool

pub data NudgeKind : Type 0 where
  registration entitlement : NudgeKind

pub data NudgeStatus : Type 0 where
  queued posting posted failed reconciliation_required : NudgeStatus

pub record Nudge : Type 0 where
  pub id : ℕ
  pub repo_full : Bytes
  pub repository_id : ℕ
  pub pr_number : ℕ
  pub installation_id : ℕ
  pub requester_github_id : ℕ
  pub requester_login : Bytes
  pub kind : NudgeKind
  pub publication_token : Bytes
  pub status : NudgeStatus
  pub execution_generation : ℕ
  pub service_lease_owner : Bytes
  pub claim_fence : ℕ
  pub posted_comment_id : ℕ
  pub next_attempt_at : Option ℕ
  pub created_at : ℕ
  pub posted_at : Option ℕ
  pub send_started_at : Option ℕ

pub record NudgeCreateResult : Type 0 where
  pub created : Bool
  pub duplicate_delivery : Bool

pub record Delivery : Type 0 where
  pub delivery_id : Bytes
  pub created_at : ℕ

-- A row of the legacy table register_nudges.
pub record RegisterNudge : Type 0 where
  pub repo_full : Bytes
  pub pr_number : ℕ
  pub login : Bytes

-- The tables that the review and notification queues use.
pub record Db : Type 0 where
  pub lease : Option ServiceLease
  pub reviews : List Review
  pub findings : List Finding
  pub publications : List Publication
  pub nudges : List Nudge
  pub deliveries : List Delivery
  pub register_nudges : List RegisterNudge

abbrev pub empty_db : Db
empty_db = record {
  lease = none;
  reviews = [];
  findings = [];
  publications = [];
  nudges = [];
  deliveries = [];
  register_nudges = [];
}

-- Tests of a status in a WHERE clause.
abbrev pub is_running : ReviewStatus → Bool
is_running running = true
is_running _ = false

abbrev pub is_done : ReviewStatus → Bool
is_done done = true
is_done _ = false

-- status IN ('queued', 'reconciliation_required')
abbrev pub is_claimable : ReviewStatus → Bool
is_claimable queued = true
is_claimable reconciliation_required = true
is_claimable _ = false

-- status IN ('queued', 'running', 'reconciliation_required')
abbrev pub is_active : ReviewStatus → Bool
is_active done = false
is_active failed = false
is_active _ = true

abbrev pub needs_reconciliation : ReviewStatus → Bool
needs_reconciliation reconciliation_required = true
needs_reconciliation _ = false

abbrev pub is_pending : PublicationStatus → Bool
is_pending pending = true
is_pending _ = false

abbrev pub is_sending : PublicationStatus → Bool
is_sending sending = true
is_sending _ = false

abbrev pub is_posted : PublicationStatus → Bool
is_posted posted = true
is_posted _ = false

abbrev pub is_uncertain : PublicationStatus → Bool
is_uncertain reconciliation_required = true
is_uncertain _ = false

abbrev pub is_summary : PublicationKind → Bool
is_summary summary = true
is_summary inline = false

abbrev pub is_posting : NudgeStatus → Bool
is_posting posting = true
is_posting _ = false

-- status IN ('queued', 'reconciliation_required')
abbrev pub is_waiting : NudgeStatus → Bool
is_waiting queued = true
is_waiting reconciliation_required = true
is_waiting _ = false

abbrev pub is_registration : NudgeKind → Bool
is_registration registration = true
is_registration entitlement = false

-- A column is '' or at most the given time.
abbrev pub is_due : ℕ → Option ℕ → Bool
is_due now none = true
is_due now (some t) = leb t now

abbrev pub is_some {ℓ} : {A : Type ℓ} → Option A → Bool
is_some none = false
is_some (some a) = true

abbrev pub is_terminal : ReviewStatus → Bool
is_terminal done = true
is_terminal failed = true
is_terminal _ = false

-- How far a publication has come; no operation takes it back.
abbrev pub progress : PublicationStatus → ℕ
progress pending = 0
progress sending = 1
progress reconciliation_required = 2
progress posted = 3

abbrev pub is_settled : NudgeStatus → Bool
is_settled posted = true
is_settled failed = true
is_settled _ = false

abbrev pub fence_of : Option ServiceLease → ℕ
fence_of none = 0
fence_of (some l) = l.fence
