-- ===== src/Store/Frame/Publications.antt =====
-- The publication operations keep whatever respects the writes of `Frame`.
use oc_review_bot.Common.{
  ℕ, ◌≡◌, Bool, true, not, ◌&&◌, Option, none, some, List, Bytes, arith, ◌==◌,
}
use oc_review_bot.Store.Schema.{
  Db, Review, Finding, Publication, PublicationKind, summary, inline, sending, is_running,
  is_pending, is_sending, is_uncertain, is_posted,
}
use oc_review_bot.Store.Tx.{◌>>=◌, modify, gets, pure}
use oc_review_bot.Store.Keeps.{Keeps, KeepsCall, Keeps-bind, Keeps-commit, keeps_rules}
use oc_review_bot.Store.Publications.{
  publication_of, publication_row, found_or_missing, update_publications, to_reconcile,
  give_up_send, claim_sending, claim_pending, claim_publication_for_send, is_claimed_pending,
  begin_publication_send, update_publication_target, to_posted, is_owned_publication,
  mark_publication_posted, mark_publication_reconciliation_required,
}
use oc_review_bot.Store.Frame.{Frame, ReviewWrite, PublicationWrite}
use oc_review_bot.Store.Frame.Reviews.{
  Keeps-update_reviews, Keeps-review_mutation, Keeps-require_review_lease,
}

module _ {P : Db → Type 0} (frame : Frame P) where
  pub Keeps-update_publications :
      (test : Publication → Bool) (f : Publication → Publication)
      → ((p : Publication) → test p ≡ true → PublicationWrite p (f p))
      → Keeps P (update_publications test f)
  unfolding update_publications ◌>>=◌ gets modify pure
  Keeps-update_publications test f w = record { at = λ db h. frame.publications test f db w h }

  Keeps-found_or_missing : (p : Option Publication) → Keeps P (found_or_missing p)
  Keeps-found_or_missing none = search keeps_rules
  Keeps-found_or_missing (some p) = search keeps_rules

  Keeps-publication_row :
      (review_id publication_id : ℕ) → Keeps P (publication_row review_id publication_id)
  unfolding publication_row
  Keeps-publication_row review_id publication_id = search (keeps_rules, Keeps-found_or_missing)

  Keeps-findings :
      (fs : Db → List Finding) → Keeps P (modify (λ db. record db { findings = fs db }))
  unfolding modify
  Keeps-findings fs = record { at = λ db h. frame.findings (fs db) db h }

module _ (owner : Bytes) (fence now : ℕ) (review_id publication_id : ℕ) (p : Publication) where
  give_up_write :
      (publication_of review_id publication_id p && is_sending p.status) ≡ true
      → PublicationWrite p (to_reconcile owner fence now p)
  give_up_write h = ground arith

  claim_write :
      (publication_of review_id publication_id p && is_pending p.status) ≡ true
      → PublicationWrite p (record p {
        service_lease_owner = owner;
        service_lease_fence = fence;
        send_started_at = none;
      })
  claim_write h = ground arith

  send_write :
      is_claimed_pending owner fence now review_id publication_id p ≡ true
      → PublicationWrite p (record p {
        status = sending;
        service_lease_owner = owner;
        service_lease_fence = fence;
        send_started_at = some now;
      })
  unfolding is_claimed_pending
  send_write h = ground arith

  post_uncertain_write :
      (comment_id : ℕ)
      → (publication_of review_id publication_id p && is_uncertain p.status) ≡ true
      → PublicationWrite p (to_posted owner fence now comment_id p)
  post_uncertain_write comment_id h = ground arith

  post_owned_write :
      (comment_id : ℕ)
      → (publication_of review_id publication_id p && is_owned_publication owner fence now p) ≡ true
      → PublicationWrite p (to_posted owner fence now comment_id p)
  unfolding is_owned_publication
  post_owned_write comment_id h = ground arith

  uncertain_write :
      (publication_of review_id publication_id p && not (is_posted p.status)) ≡ true
      → PublicationWrite p (to_reconcile owner fence now p)
  uncertain_write h = ground arith

summary_comment_write :
    (review_id generation comment_id : ℕ) (r : Review)
    → (r.id == review_id && (is_running r.status && r.execution_generation == generation)) ≡ true
    → ReviewWrite r (record r { summary_comment_id = comment_id })
summary_comment_write review_id generation comment_id r h = ground arith

ruleset publication_rules = (
  keeps_rules, Keeps-update_reviews, Keeps-review_mutation, Keeps-require_review_lease,
  Keeps-update_publications, Keeps-publication_row, Keeps-findings, give_up_write, claim_write,
  send_write, post_uncertain_write, post_owned_write, uncertain_write, summary_comment_write,
)

module _ {P : Db → Type 0} (frame : Frame P) (owner : Bytes) (fence now : ℕ) where
  Keeps-give_up_send :
      (review_id publication_id : ℕ)
      → Keeps P (give_up_send owner fence now review_id publication_id)
  unfolding give_up_send
  Keeps-give_up_send review_id publication_id = search publication_rules depth 12

  Keeps-claim_sending :
      (review_id publication_id : ℕ) (t : Option ℕ)
      → Keeps P (claim_sending owner fence now review_id publication_id t)
  Keeps-claim_sending review_id publication_id none = Keeps-give_up_send review_id publication_id
  Keeps-claim_sending review_id publication_id (some t) =
      search (keeps_rules, Keeps-give_up_send) depth 12

  Keeps-claim_pending :
      (review_id publication_id : ℕ)
      → Keeps P (claim_pending owner fence now review_id publication_id)
  unfolding claim_pending
  Keeps-claim_pending review_id publication_id = search publication_rules depth 12

  module _ (review_id generation publication_id : ℕ) where
    pub claim_publication_for_send-keeps :
        KeepsCall P (claim_publication_for_send owner fence now review_id generation publication_id)
    unfolding claim_publication_for_send
    claim_publication_for_send-keeps =
        search (publication_rules, Keeps-claim_sending, Keeps-claim_pending) depth 12

    pub begin_publication_send-keeps :
        KeepsCall P (begin_publication_send owner fence now review_id generation publication_id)
    unfolding begin_publication_send
    begin_publication_send-keeps = search publication_rules depth 12

    pub mark_publication_reconciliation_required-keeps : KeepsCall P (
        mark_publication_reconciliation_required owner fence now review_id generation
          publication_id)
    unfolding mark_publication_reconciliation_required
    mark_publication_reconciliation_required-keeps = search publication_rules depth 12

    Keeps-target :
        (kind : PublicationKind) (finding_id comment_id : ℕ)
        → Keeps P (
            update_publication_target owner fence now kind finding_id review_id generation
              comment_id)
    unfolding update_publication_target
    Keeps-target summary finding_id comment_id = search publication_rules depth 12
    Keeps-target inline finding_id comment_id =
        Keeps-bind _ _ (Keeps-findings frame _) (λ _. Keeps-commit tt)

    pub mark_publication_posted-keeps :
        (comment_id : ℕ)
        → KeepsCall P
            (mark_publication_posted owner fence now review_id generation publication_id comment_id)
    unfolding mark_publication_posted
    mark_publication_posted-keeps comment_id = search (publication_rules, Keeps-target) depth 14
