-- ===== src/Store/Publications.antt =====
-- internal/store/reviews.go: the outbox of a review's GitHub comments. A publication is prepared
-- with its review, claimed, sent, and then posted or left to be reconciled by its marker.
use oc_review_bot.Common.{
  ℕ, ◌+◌, Bool, not, ◌&&◌, ◌||◌, Option, none, some, List, [], ◌∷◌, ◌++◌, Bytes, codes, text_eq,
  is_empty, trim_space, leb, ltb, ◌==◌, if◌then◌else◌, any,
}
use oc_review_bot.Store.Schema.{
  Db, Review, Finding, Publication, PublicationKind, PublicationStatus, PublicationFinding,
  PublicationPlan, summary, inline, pending, sending, posted, not_found, review_lease_lost,
  review_not_ready, publication_reconcile, invalid_argument, unique_constraint, rfc3339,
  outbound_handoff_timeout, is_running, is_pending, is_sending, is_posted, is_uncertain, is_summary,
}
use oc_review_bot.Store.Table.{update_where, count_where, first_where, next_id}
use oc_review_bot.Store.Tx.{
  Result, Tx, ◌>>=◌, ◌>>◌, pure, rollback, gets, modify, require, commit, commit_with, transact,
}
use oc_review_bot.Store.Reviews.{
  update_reviews, require_review_mutation, is_claimed_by, require_review_lease_tx,
}

-- `publicationMarker`
unfoldable pub publication_marker : Bytes → Bytes
publication_marker token = codes "<!-- samik-bot:v2:" ++ (token ++ codes " -->")

-- `withMarker`
unfoldable pub with_marker : Bytes → Bytes → Bytes
with_marker body marker = trim_space body ++ (10 ∷ 10 ∷ marker)

abbrev pub kind_eq : PublicationKind → PublicationKind → Bool
kind_eq a b = is_summary a && is_summary b || not (is_summary a) && not (is_summary b)

-- UNIQUE(review_id, kind, ordinal) and UNIQUE(marker)
unfoldable pub publication_conflicts : Publication → Publication → Bool
publication_conflicts p q =
    q.review_id == p.review_id && (kind_eq q.kind p.kind && q.ordinal == p.ordinal)
    || text_eq q.marker p.marker

-- INSERT INTO review_publications; the constraints of the table make it fail.
unfoldable pub insert_publication : (ℕ → Publication) → Tx (Unit {0})
insert_publication row = do
  id ← gets (λ db. next_id (λ p. p.id) db.publications)
  conflict ← gets (λ db. any (publication_conflicts (row id)) db.publications)
  require (not conflict) unique_constraint
  modify (λ db. record db { publications = db.publications ++ row id ∷ [] })

unfoldable pub insert_finding : (ℕ → Finding) → Tx ℕ
insert_finding row = do
  id ← gets (λ db. next_id (λ f. f.id) db.findings)
  modify (λ db. record db { findings = db.findings ++ row id ∷ [] })
  pure id

unfoldable pub is_valid_publication_finding : PublicationFinding → Bool
is_valid_publication_finding f =
    not (is_empty f.path)
    && (leb 1 f.line && (not (is_empty f.side) && not (is_empty f.comment_body_md)))

-- UPDATE review_publications SET f WHERE test, with RowsAffected
unfoldable pub update_publications : (Publication → Bool) → (Publication → Publication) → Tx ℕ
update_publications test f = do
  rows ← gets (λ db. count_where test db.publications)
  modify (λ db. record db { publications = update_where test f db.publications })
  pure rows

-- `parse`: a text that is no time is `none`
abbrev pub handoff_is_open : ℕ → ℕ → Bool
handoff_is_open now started = ltb now (started + outbound_handoff_timeout)

-- WHERE id = ? AND review_id = ?
abbrev pub publication_of : ℕ → ℕ → Publication → Bool
publication_of review_id publication_id p = p.id == publication_id && p.review_id == review_id

abbrev pub found_or_missing : Option Publication → Tx Publication
found_or_missing none = rollback not_found
found_or_missing (some p) = pure p

unfoldable pub publication_row : ℕ → ℕ → Tx Publication
publication_row review_id publication_id = do
  found ← gets (λ db. first_where (publication_of review_id publication_id) db.publications)
  found_or_missing found

-- The random tokens that a preparation draws: `tokens 0` for the summary, `tokens n` for the n-th
-- finding.
abbrev pub Tokens : Type 0
Tokens = ℕ → Bytes

module _ (owner : Bytes) (fence now : ℕ) where
  unfoldable pub summary_row : ℕ → PublicationPlan → Bytes → ℕ → Publication
  summary_row review_id plan marker id = record {
    id = id;
    review_id = review_id;
    kind = summary;
    ordinal = 0;
    marker = marker;
    body_md = with_marker plan.summary_body_md marker;
    commit_sha = plan.commit_sha;
    path = [];
    side = [];
    line = 0;
    finding_id = 0;
    status = pending;
    posted_comment_id = 0;
    created_at = rfc3339 now;
    posted_at = none;
    service_lease_owner = [];
    service_lease_fence = 0;
    send_started_at = none;
  }

  unfoldable pub inline_row :
      ℕ → PublicationPlan → PublicationFinding → ℕ → ℕ → Bytes → ℕ → Publication
  inline_row review_id plan finding finding_id ordinal marker id = record {
    id = id;
    review_id = review_id;
    kind = inline;
    ordinal = ordinal;
    marker = marker;
    body_md = with_marker finding.comment_body_md marker;
    commit_sha = plan.commit_sha;
    path = finding.path;
    side = finding.side;
    line = finding.line;
    finding_id = finding_id;
    status = pending;
    posted_comment_id = 0;
    created_at = rfc3339 now;
    posted_at = none;
    service_lease_owner = [];
    service_lease_fence = 0;
    send_started_at = none;
  }

  unfoldable pub finding_row : ℕ → PublicationFinding → ℕ → Finding
  finding_row review_id finding id = record {
    id = id;
    review_id = review_id;
    path = finding.path;
    line = finding.line;
    side = finding.side;
    severity = finding.severity;
    body_md = finding.finding_body_md;
    posted_comment_id = 0;
  }

  -- The loop over `plan.Findings`; `ordinal` is one more than the index of the next finding.
  unfoldable pub prepare_findings :
      ℕ → PublicationPlan → Tokens → ℕ → List PublicationFinding → Tx (Unit {0})
  prepare_findings review_id plan tokens ordinal [] = pure tt
  prepare_findings review_id plan tokens ordinal (f ∷ fs) = do
    require (is_valid_publication_finding f) invalid_argument
    finding_id ← insert_finding (finding_row review_id f)
    insert_publication
        (inline_row review_id plan f finding_id ordinal (publication_marker (tokens ordinal)))
    prepare_findings review_id plan tokens (ordinal + 1) fs

  abbrev pub running_or_lost : Option Review → Tx Review
  running_or_lost none = rollback review_lease_lost
  running_or_lost (some r) = pure r

  unfoldable pub prepare_review_publication :
      ℕ → ℕ → PublicationPlan → Tokens → Db → Result (Unit {0}) × Db
  unfolding summary_row inline_row finding_row prepare_findings
  prepare_review_publication id generation plan tokens = transact (do
    require (not (is_empty plan.summary_body_md || is_empty plan.commit_sha)) invalid_argument
    require_review_lease_tx owner fence now id generation
    found ← gets (λ db.
        first_where
          (λ r. r.id == id && (is_running r.status && r.execution_generation == generation))
          db.reviews)
    review ← running_or_lost found
    require (not (review.publication_prepared || is_empty review.publication_token))
        review_not_ready
    insert_publication (summary_row id plan (publication_marker (tokens 0)))
    prepare_findings id plan tokens 1 plan.findings
    rows ←
        update_reviews (is_claimed_by owner fence now id generation)
          (λ r. record r { summary_md = plan.summary_md; publication_prepared = Bool.true })
    require_review_mutation rows
    commit tt)

  -- The row of a send whose outcome is unknown: only its marker can settle it now.
  abbrev pub to_reconcile : Publication → Publication
  to_reconcile p = record p {
    status = PublicationStatus.reconciliation_required;
    service_lease_owner = [];
    service_lease_fence = 0;
  }

  unfoldable pub give_up_send : ℕ → ℕ → Tx (Result Bool)
  give_up_send review_id publication_id = do
    update_publications (λ p. publication_of review_id publication_id p && is_sending p.status)
        to_reconcile
    commit_with publication_reconcile

  abbrev pub claim_sending : ℕ → ℕ → Option ℕ → Tx (Result Bool)
  claim_sending review_id publication_id none = give_up_send review_id publication_id
  claim_sending review_id publication_id (some started) =
      if handoff_is_open now started
      then commit Bool.false
      else give_up_send review_id publication_id

  unfoldable pub claim_pending : ℕ → ℕ → Tx (Result Bool)
  claim_pending review_id publication_id = do
    rows ←
        update_publications (λ p. publication_of review_id publication_id p && is_pending p.status)
          (λ p. record p {
            service_lease_owner = owner;
            service_lease_fence = fence;
            send_started_at = none;
          })
    require_review_mutation rows
    commit Bool.true

  unfoldable pub claim_publication_for_send : ℕ → ℕ → ℕ → Db → Result Bool × Db
  unfolding give_up_send claim_pending
  claim_publication_for_send review_id generation publication_id = transact (do
    require_review_lease_tx owner fence now review_id generation
    p ← publication_row review_id publication_id
    if is_posted p.status
        then commit Bool.false
        else if is_uncertain p.status
        then commit_with publication_reconcile
        else if is_pending p.status
            && (text_eq p.service_lease_owner owner && p.service_lease_fence == fence)
        then commit Bool.false
        else if is_sending p.status
        then claim_sending review_id publication_id p.send_started_at
        else claim_pending review_id publication_id)

  -- WHERE id = ? AND review_id = ? AND status = 'pending' AND service_lease_owner = ? AND
  -- service_lease_fence = ?
  unfoldable pub is_claimed_pending : ℕ → ℕ → Publication → Bool
  is_claimed_pending review_id publication_id p =
      publication_of review_id publication_id p
      && (is_pending p.status
          && (text_eq p.service_lease_owner owner && p.service_lease_fence == fence))

  unfoldable pub begin_publication_send : ℕ → ℕ → ℕ → Db → Result (Unit {0}) × Db
  begin_publication_send review_id generation publication_id = transact (do
    require_review_lease_tx owner fence now review_id generation
    rows ← update_publications (is_claimed_pending review_id publication_id) (λ p. record p {
      status = sending;
      service_lease_owner = owner;
      service_lease_fence = fence;
      send_started_at = some now;
    })
    require_review_mutation rows
    commit tt)

  -- `updatePublicationTarget`
  unfoldable pub update_publication_target :
      PublicationKind → ℕ → ℕ → ℕ → ℕ → Tx (Result (Unit {0}))
  update_publication_target summary finding_id review_id generation comment_id = do
    update_reviews
        (λ r. r.id == review_id && (is_running r.status && r.execution_generation == generation))
        (λ r. record r { summary_comment_id = comment_id })
    commit tt
  update_publication_target inline finding_id review_id generation comment_id = do
    modify (λ db. record db {
      findings =
          update_where (λ f. f.id == finding_id && f.review_id == review_id)
            (λ f. record f { posted_comment_id = comment_id }) db.findings;
    })
    commit tt

  abbrev pub to_posted : ℕ → Publication → Publication
  to_posted comment_id p = record p {
    status = posted;
    posted_comment_id = comment_id;
    posted_at = some (rfc3339 now);
    service_lease_owner = [];
    service_lease_fence = 0;
    send_started_at = none;
  }

  unfoldable pub is_owned_publication : Publication → Bool
  is_owned_publication p =
      (is_sending p.status || is_pending p.status)
      && (text_eq p.service_lease_owner owner && p.service_lease_fence == fence)

  unfoldable pub post_publication :
      (Publication → Bool) → ℕ → ℕ → ℕ → ℕ → Publication → Tx (Result (Unit {0}))
  post_publication test review_id generation publication_id comment_id p = do
    rows ←
        update_publications (λ q. publication_of review_id publication_id q && test q)
          (to_posted comment_id)
    require_review_mutation rows
    update_publication_target p.kind p.finding_id review_id generation comment_id

  unfoldable pub mark_publication_posted : ℕ → ℕ → ℕ → ℕ → Db → Result (Unit {0}) × Db
  unfolding post_publication
  mark_publication_posted review_id generation publication_id comment_id = transact (do
    require (leb 1 comment_id) invalid_argument
    require_review_lease_tx owner fence now review_id generation
    p ← publication_row review_id publication_id
    if is_posted p.status
        then commit tt
        else if is_uncertain p.status
        then post_publication (λ q. is_uncertain q.status) review_id generation publication_id
            comment_id p
        else do
          require (is_owned_publication p) review_lease_lost
          post_publication is_owned_publication review_id generation publication_id comment_id p)

  unfoldable pub mark_publication_reconciliation_required : ℕ → ℕ → ℕ → Db → Result (Unit {0}) × Db
  mark_publication_reconciliation_required review_id generation publication_id = transact (do
    require_review_lease_tx owner fence now review_id generation
    rows ←
        update_publications
          (λ p. publication_of review_id publication_id p && not (is_posted p.status)) to_reconcile
    require_review_mutation rows
    commit tt)
