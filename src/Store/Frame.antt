-- ===== src/Store/Frame.antt =====
-- What a predicate on the database has to respect so that every operation of the store keeps it:
-- the ways in which the operations write to the tables, row by row.
pub mod Lease
pub mod Reviews
pub mod Publications
pub mod Prepare
pub mod Intake
pub mod Nudges
use oc_review_bot.Common.{
  ℕ, ◌≤◌, ◌≡◌, Bool, true, false, ◌&&◌, List, [], ◌∷◌, ◌++◌, Option, any, ◌==◌, Bytes,
}
use oc_review_bot.Store.Schema.{
  Db, ServiceLease, Review, Finding, Publication, Nudge, Delivery, ReviewStatus, NudgeStatus,
  pending, is_terminal, is_done, is_running, is_posted, is_settled, progress, fence_of,
}
use oc_review_bot.Store.Table.{update_where, next_id}
use oc_review_bot.Store.Reviews.{is_fully_posted}
use oc_review_bot.Store.Admission.{is_conflicting, is_delivered}

-- What no write changes in a review.
pub record SameReview (r s : Review) : Type 0 where
  pub same_id : s.id ≡ r.id
  pub same_repository : s.repository_id ≡ r.repository_id
  pub same_pr : s.pr_number ≡ r.pr_number
  pub same_requester : s.requester_github_id ≡ r.requester_github_id
  pub same_login : s.requester_login ≡ r.requester_login
  pub same_installation : s.installation_id ≡ r.installation_id
  pub same_trigger : s.trigger_comment_id ≡ r.trigger_comment_id
  pub same_creation : s.created_at ≡ r.created_at
  pub same_token : s.publication_token ≡ r.publication_token

-- A write to a review that is not finished, and does not complete it.
pub record ReviewWrite (r s : Review) : Type 0 where
  pub live : is_terminal r.status ≡ false
  pub same : SameReview r s
  pub generation : r.execution_generation ≤ s.execution_generation
  pub incomplete : is_done s.status ≡ false

-- The completion of a review.
pub record ReviewDone (publications : List Publication) (r s : Review) : Type 0 where
  pub running : is_running r.status ≡ true
  pub same : SameReview r s
  pub generation : r.execution_generation ≤ s.execution_generation
  pub completed : is_fully_posted r.id publications ≡ true

-- A write to a publication that is not posted: its content stays, and it is not taken back.
pub record PublicationWrite (p q : Publication) : Type 0 where
  pub unposted : is_posted p.status ≡ false
  pub same_id : q.id ≡ p.id
  pub same_review : q.review_id ≡ p.review_id
  pub same_kind : q.kind ≡ p.kind
  pub same_ordinal : q.ordinal ≡ p.ordinal
  pub same_path : q.path ≡ p.path
  pub same_side : q.side ≡ p.side
  pub same_line : q.line ≡ p.line
  pub same_marker : q.marker ≡ p.marker
  pub same_body : q.body_md ≡ p.body_md
  pub same_commit : q.commit_sha ≡ p.commit_sha
  pub onward : progress p.status ≤ progress q.status

pub record NudgeWrite (n m : Nudge) : Type 0 where
  pub live : is_settled n.status ≡ false
  pub same_id : m.id ≡ n.id
  pub same_repository : m.repository_id ≡ n.repository_id
  pub same_pr : m.pr_number ≡ n.pr_number
  pub same_requester : m.requester_github_id ≡ n.requester_github_id
  pub same_login : m.requester_login ≡ n.requester_login
  pub same_installation : m.installation_id ≡ n.installation_id
  pub same_kind : m.kind ≡ n.kind
  pub same_token : m.publication_token ≡ n.publication_token
  pub generation : n.execution_generation ≤ m.execution_generation

-- No recorded delivery is lost.
abbrev pub Remembers : List Delivery → List Delivery → Type 0
Remembers ds es =
    (delivery_id : Bytes) → is_delivered delivery_id ds ≡ true → is_delivered delivery_id es ≡ true

-- A review with this id is running.
abbrev pub is_running_id : ℕ → List Review → Bool
is_running_id id = any (λ r. r.id == id && is_running r.status)

pub record Frame (P : Db → Type 0) : Type 0 where
  pub reviews :
      (test : Review → Bool) (f : Review → Review) (db : Db)
      → ((r : Review) → test r ≡ true → ReviewWrite r (f r))
      → P db
      → P (record db { reviews = update_where test f db.reviews })
  pub completion :
      (test : Review → Bool) (f : Review → Review) (db : Db)
      → ((r : Review) → test r ≡ true → ReviewDone db.publications r (f r))
      → P db
      → P (record db { reviews = update_where test f db.reviews })
  pub publications :
      (test : Publication → Bool) (f : Publication → Publication) (db : Db)
      → ((p : Publication) → test p ≡ true → PublicationWrite p (f p))
      → P db
      → P (record db { publications = update_where test f db.publications })
  pub nudges :
      (test : Nudge → Bool) (f : Nudge → Nudge) (db : Db)
      → ((n : Nudge) → test n ≡ true → NudgeWrite n (f n))
      → P db
      → P (record db { nudges = update_where test f db.nudges })
  pub findings : (fs : List Finding) (db : Db) → P db → P (record db { findings = fs })
  pub deliveries :
      (ds : List Delivery) (db : Db)
      → Remembers db.deliveries ds
      → P db
      → P (record db { deliveries = ds })
  pub new_review :
      (r : Review) (db : Db)
      → r.id ≡ next_id (λ q. q.id) db.reviews
      → r.status ≡ ReviewStatus.queued
      → any (is_conflicting r) db.reviews ≡ false
      → P db
      → P (record db { reviews = db.reviews ++ r ∷ [] })
  pub new_publication :
      (p : Publication) (db : Db)
      → p.id ≡ next_id (λ q. q.id) db.publications
      → p.status ≡ pending
      → is_running_id p.review_id db.reviews ≡ true
      → P db
      → P (record db { publications = db.publications ++ p ∷ [] })
  pub new_nudge :
      (n : Nudge) (db : Db)
      → n.id ≡ next_id (λ m. m.id) db.nudges
      → n.status ≡ NudgeStatus.queued
      → P db
      → P (record db { nudges = db.nudges ++ n ∷ [] })

-- The same for the writes to the service lease.
pub record LeaseFrame (P : Db → Type 0) : Type 0 where
  pub lease :
      (l : Option ServiceLease) (db : Db)
      → fence_of db.lease ≤ fence_of l
      → P db
      → P (record db { lease = l })

-- The same for the purge of old deliveries.
pub record PurgeFrame (P : Db → Type 0) : Type 0 where
  pub purge : (ds : List Delivery) (db : Db) → P db → P (record db { deliveries = ds })
