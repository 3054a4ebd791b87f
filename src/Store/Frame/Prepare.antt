-- ===== src/Store/Frame/Prepare.antt =====
-- The preparation of a review's publications keeps whatever respects the writes of `Frame`. Its
-- new rows belong to a review that is running while they are inserted.
use oc_review_bot.Common.{
  ℕ, ◌+◌, ◌≡◌, refl, inl, inr, true, not, ◌&&◌, ◌||◌, some, List, [], ◌∷◌, Bytes, arith, ◌==◌,
  is_empty, Option-cases, Bool-cases, any,
}
use oc_review_bot.Store.Schema.{
  Db, Review, Finding, Publication, PublicationFinding, PublicationPlan, pending, is_running,
  review_not_ready,
}
use oc_review_bot.Store.Table.{first_where, next_id}
use oc_review_bot.Store.Tx.{Result, Tx, ◌>>=◌, ◌>>◌, modify, gets, pure, commit, require, rollback}
use oc_review_bot.Store.Keeps.{
  After, Keeps, KeepsCall, Leads, Leads-bind, Keeps-gets_bind, Keeps-bind, Keeps-require_only,
  Keeps-Leads, KeepsCall-transact, keeps_rules,
}
use oc_review_bot.Store.Reviews.{update_reviews, require_review_mutation, is_claimed_by}
use oc_review_bot.Store.Publications.{
  Tokens, insert_publication, insert_finding, publication_conflicts, publication_marker,
  summary_row, inline_row, prepare_findings, running_or_lost, prepare_review_publication,
}
use oc_review_bot.Store.Frame.{Frame, is_running_id}
use oc_review_bot.Store.Frame.Reviews.{
  Keeps-update_reviews, Keeps-review_mutation, Keeps-require_review_lease, prepared_write,
}

is_running_id-first_where :
    (id generation : ℕ) (rs : List Review) (r : Review)
    → first_where
        (λ q. q.id == id && (is_running q.status && q.execution_generation == generation))
        rs
      ≡ some r
    → is_running_id id rs ≡ true
unfolding first_where
is_running_id-first_where id generation [] r h = ground arith
is_running_id-first_where id generation (q ∷ rs) r h =
    ground (arith, is_running_id-first_where id generation rs r)

module _ {P : Db → Type 0} (frame : Frame P) (id : ℕ) where
  abbrev Running : Db → Type 0
  Running db = P db × (is_running_id id db.reviews ≡ true)

  Keeps-insert_publication :
      (row : ℕ → Publication)
      → ((n : ℕ) → (row n).id ≡ n)
      → ((n : ℕ) → (row n).status ≡ pending)
      → ((n : ℕ) → (row n).review_id ≡ id)
      → Keeps Running (insert_publication row)
  unfolding insert_publication ◌>>=◌ gets require modify
  Keeps-insert_publication row ids waiting owned = record {
    at = λ db h.
        elim (Bool-cases (
          any (publication_conflicts (row (next_id (λ p. p.id) db.publications)))
            db.publications)) [
              | inl e ↦ rw e tt
              | inr e ↦ rw e (
                frame.new_publication _ db (ids _) (waiting _)
                    (rw (owned (next_id (λ p. p.id) db.publications)) h.1) h.0,
                h.1,
              )
            ];
  }

  Keeps-insert_finding : (row : ℕ → Finding) → Keeps Running (insert_finding row)
  unfolding insert_finding ◌>>=◌ gets modify pure
  Keeps-insert_finding row = record { at = λ db h. (frame.findings _ db h.0, h.1) }

  module _ (owner : Bytes) (fence now : ℕ) where
    Keeps-insert_summary :
        (plan : PublicationPlan) (marker : Bytes)
        → Keeps Running (insert_publication (summary_row owner fence now id plan marker))
    unfolding summary_row
    Keeps-insert_summary plan marker =
        Keeps-insert_publication _ (λ n. refl) (λ n. refl) (λ n. refl)

    Keeps-insert_inline :
        (plan : PublicationPlan) (f : PublicationFinding) (finding_id ordinal : ℕ) (marker : Bytes)
        → Keeps Running
            (insert_publication (inline_row owner fence now id plan f finding_id ordinal marker))
    unfolding inline_row
    Keeps-insert_inline plan f finding_id ordinal marker =
        Keeps-insert_publication _ (λ n. refl) (λ n. refl) (λ n. refl)

    Keeps-prepare_findings :
        (plan : PublicationPlan) (tokens : Tokens) (ordinal : ℕ) (fs : List PublicationFinding)
        → Keeps Running (prepare_findings owner fence now id plan tokens ordinal fs)
    unfolding prepare_findings
    Keeps-prepare_findings plan tokens ordinal [] = search keeps_rules
    Keeps-prepare_findings plan tokens ordinal (f ∷ fs) =
        Keeps-bind _ _ (Keeps-require_only _ _) (λ _. Keeps-bind _ _ (Keeps-insert_finding _) (λ n.
          Keeps-bind _ _ (Keeps-insert_inline plan f n ordinal _)
            (λ _. Keeps-prepare_findings plan tokens (ordinal + 1) fs)))

    -- What follows the reading of the review's row.
    abbrev Prepared : ℕ → PublicationPlan → Tokens → Review → Tx (Result (Unit {0}))
    Prepared generation plan tokens review = do
      require (not (review.publication_prepared || is_empty review.publication_token))
          review_not_ready
      insert_publication (summary_row owner fence now id plan (publication_marker (tokens 0)))
      prepare_findings owner fence now id plan tokens 1 plan.findings
      rows ←
          update_reviews (is_claimed_by owner fence now id generation)
            (λ r. record r { summary_md = plan.summary_md; publication_prepared = true })
      require_review_mutation rows
      commit tt

    Leads-prepared :
        (generation : ℕ) (plan : PublicationPlan) (tokens : Tokens) (review : Review)
        → Leads Running P (Prepared generation plan tokens review)
    Leads-prepared generation plan tokens review =
        Leads-bind _ _ (Keeps-Leads (Keeps-require_only _ _)) (λ _.
          Leads-bind _ _ (Keeps-Leads (Keeps-insert_summary plan _)) (λ _.
            Leads-bind _ _ (Keeps-Leads (Keeps-prepare_findings plan tokens 1 plan.findings))
              (λ _. record { at = λ db h. written.at db h.0 })))
      where
        written : Keeps P (do
          rows ←
              update_reviews
                (is_claimed_by owner fence now id generation)
                (λ r. record r { summary_md = plan.summary_md; publication_prepared = true })
          require_review_mutation rows
          commit tt)
        written =
            search (keeps_rules, Keeps-update_reviews, Keeps-review_mutation, prepared_write) depth
              12

    After-reading :
        (generation : ℕ) (plan : PublicationPlan) (tokens : Tokens) (db : Db)
        → P db
        → After P (
            (running_or_lost owner fence now (
                  first_where
                    (λ r.
                      r.id == id && (is_running r.status && r.execution_generation == generation))
                    db.reviews)
                >>= λ review. Prepared generation plan tokens review)
              db)
    unfolding ◌>>=◌ rollback pure
    After-reading generation plan tokens db h =
        elim (Option-cases (
          first_where
            (λ r. r.id == id && (is_running r.status && r.execution_generation == generation))
            db.reviews)) [
              | inl e ↦ rw e tt
              | inr (r, e) ↦ rw e (
                  (Leads-prepared generation plan tokens r).at db
                    (h, is_running_id-first_where id generation db.reviews r e))
            ]

module _ {P : Db → Type 0} (frame : Frame P) (owner : Bytes) (fence now : ℕ) where
  Keeps-reading :
      (id generation : ℕ) (plan : PublicationPlan) (tokens : Tokens)
      → Keeps P (do
        found ← gets (λ db.
            first_where
              (λ r. r.id == id && (is_running r.status && r.execution_generation == generation))
              db.reviews)
        review ← running_or_lost owner fence now found
        Prepared frame id owner fence now generation plan tokens review)
  Keeps-reading id generation plan tokens =
      Keeps-gets_bind _ _ (After-reading frame id owner fence now generation plan tokens)

  pub prepare_review_publication-keeps :
      (id generation : ℕ) (plan : PublicationPlan) (tokens : Tokens)
      → KeepsCall P (prepare_review_publication owner fence now id generation plan tokens)
  unfolding prepare_review_publication
  prepare_review_publication-keeps id generation plan tokens = KeepsCall-transact _ (
      Keeps-bind _ _ (Keeps-require_only _ _) (λ _.
        Keeps-bind _ _ (Keeps-require_review_lease frame owner fence now id generation)
          (λ _. Keeps-reading id generation plan tokens)))
