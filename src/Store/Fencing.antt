-- ===== src/Store/Fencing.antt =====
-- What the service lease and its fencing term guarantee to its holder.
use oc_review_bot.Common.{ℕ, ◌≡◌, refl, Bool, true, false, Bytes, leb}
use oc_review_bot.Store.Schema.{
  Db, Error, service_lease_lost, service_lease_fence, invalid_service_lease_owner,
}
use oc_review_bot.Store.Tx.{Result, err, Tx, ◌>>=◌, require, transact}
use oc_review_bot.Store.Lease.{is_held, is_valid_owner, require_service_lease_tx}
use oc_review_bot.Store.Guards.{guard_answer, require_service_lease_lem}
use oc_review_bot.Store.Reviews
use oc_review_bot.Store.Publications
use oc_review_bot.Store.Nudges
use oc_review_bot.Store.History.{
  Work, perform, claim_review_by_id, claim_next_queued_review, recover_interrupted_reviews,
  set_review_execution, set_review_revision, prepare_review_publication, claim_publication_for_send,
  begin_publication_send, mark_publication_posted, mark_publication_reconciliation_required,
  finish_review_reconciliation_required, finish_review_done, finish_review_failed, requeue_review,
  claim_nudge_by_id, claim_next_queued_nudge, recover_interrupted_nudges, set_nudge_repository,
  mark_nudge_sending, mark_nudge_posted, requeue_nudge, finish_nudge_failed,
  mark_nudge_reconciliation_required,
}

-- The body fails at this database, so nothing of it is committed.
record Refuses {A : Type 0} (db : Db) (body : Tx A) : Type 0 where
  fails : (e : Error) × (body db ≡ err e)

module _ {A B : Type 0} {db : Db} where
  Refuses-bind : (m : Tx A) (f : A → Tx B) → Refuses db m → Refuses db (m >>= f)
  unfolding ◌>>=◌
  Refuses-bind m f r = let (e, p) = r.fails in record { fails = (e, rw (p, ◌>>=◌) refl) }

module _ {B : Type 0} {db : Db} where
  Refuses-require :
      (b : Bool) (e : Error) (n : Tx B) → Refuses db n → Refuses db (require b e >>= λ _. n)
  unfolding ◌>>=◌ require
  Refuses-require true e n r = record { fails = r.fails }
  Refuses-require false e n r = record { fails = (e, refl) }

-- A call that refuses: it leaves the database as it is, and answers with an error.
record RefusesCall {A : Type 0} (db : Db) (call : Db → Result A × Db) : Type 0 where
  same : (call db).1 ≡ db

module _ {A : Type 0} {db : Db} where
  RefusesCall-transact : (body : Tx (Result A)) → Refuses db body → RefusesCall db (transact body)
  unfolding transact
  RefusesCall-transact body r = let (e, p) = r.fails in record { same = rw (p, transact) refl }

ruleset refusal = (Refuses-bind, Refuses-require, RefusesCall-transact)

module _ (owner : Bytes) (fence now : ℕ) (db : Db)
    (stale : is_held owner fence now db.lease ≡ false) where
  refused : (valid fenced : Bool) → (e : Error) × (guard_answer valid fenced false db ≡ err e)
  unfolding guard_answer
  refused true true = (service_lease_lost, refl)
  refused true false = (service_lease_fence, refl)
  refused false fenced = (invalid_service_lease_owner, refl)

  lease-Refuses : Refuses db (require_service_lease_tx owner fence now)
  lease-Refuses = record {
    fails =
        rw (require_service_lease_lem owner fence now db, stale)
          (refused (is_valid_owner owner) (leb 1 fence));
  }

  review-Refuses :
      (id generation : ℕ)
      → Refuses db (Reviews.require_review_lease_tx owner fence now id generation)
  unfolding Reviews.require_review_lease_tx
  review-Refuses id generation = search (refusal, lease-Refuses)

  nudge-Refuses :
      (id generation : ℕ) → Refuses db (Nudges.require_nudge_lease_tx owner fence now id generation)
  unfolding Nudges.require_nudge_lease_tx
  nudge-Refuses id generation = search (refusal, lease-Refuses)

  untouched : {A : Type 0} (call : Db → Result A × Db) → RefusesCall db call → (call db).1 ≡ db
  untouched call r = r.same

  perform-stale : (w : Work) → perform owner fence now w db ≡ db
  unfolding perform Reviews.claim_review_by_id Reviews.claim_next_queued_review
      Reviews.recover_interrupted_reviews Reviews.set_review_execution Reviews.set_review_revision
      Publications.prepare_review_publication Publications.claim_publication_for_send
      Publications.begin_publication_send Publications.mark_publication_posted
      Publications.mark_publication_reconciliation_required
      Reviews.finish_review_reconciliation_required Reviews.finish_review_done
      Reviews.finish_review_failed Reviews.requeue_review Nudges.claim_nudge_by_id
      Nudges.claim_next_queued_nudge Nudges.recover_interrupted_nudges Nudges.set_nudge_repository
      Nudges.mark_nudge_sending Nudges.mark_nudge_posted Nudges.requeue_nudge
      Nudges.finish_nudge_failed Nudges.mark_nudge_reconciliation_required
  perform-stale (claim_review_by_id id) =
      untouched (Reviews.claim_review_by_id owner fence now id) (search (refusal, lease-Refuses))
  perform-stale claim_next_queued_review =
      untouched (Reviews.claim_next_queued_review owner fence now) (search (refusal, lease-Refuses))
  perform-stale recover_interrupted_reviews =
      untouched (Reviews.recover_interrupted_reviews owner fence now)
        (search (refusal, lease-Refuses))
  perform-stale (set_review_execution id g model key_id) =
      untouched (Reviews.set_review_execution owner fence now id g model key_id)
        (search (refusal, review-Refuses))
  perform-stale (set_review_revision id g repo_full sha revision) =
      untouched (Reviews.set_review_revision owner fence now id g repo_full sha revision)
        (search (refusal, review-Refuses))
  perform-stale (prepare_review_publication id g plan tokens) =
      untouched (Publications.prepare_review_publication owner fence now id g plan tokens)
        (search (refusal, review-Refuses))
  perform-stale (claim_publication_for_send review_id g id) =
      untouched (Publications.claim_publication_for_send owner fence now review_id g id)
        (search (refusal, review-Refuses))
  perform-stale (begin_publication_send review_id g id) =
      untouched (Publications.begin_publication_send owner fence now review_id g id)
        (search (refusal, review-Refuses))
  perform-stale (mark_publication_posted review_id g id comment_id) =
      untouched (Publications.mark_publication_posted owner fence now review_id g id comment_id)
        (search (refusal, review-Refuses))
  perform-stale (mark_publication_reconciliation_required review_id g id) =
      untouched
        (Publications.mark_publication_reconciliation_required owner fence now review_id g id)
        (search (refusal, review-Refuses))
  perform-stale (finish_review_reconciliation_required id g text) =
      untouched (Reviews.finish_review_reconciliation_required owner fence now id g text)
        (search (refusal, review-Refuses))
  perform-stale (finish_review_done id g) =
      untouched (Reviews.finish_review_done owner fence now id g) (search (refusal, review-Refuses))
  perform-stale (finish_review_failed id g text) =
      untouched (Reviews.finish_review_failed owner fence now id g text)
        (search (refusal, review-Refuses))
  perform-stale (requeue_review id g retry_after) =
      untouched (Reviews.requeue_review owner fence now id g retry_after)
        (search (refusal, review-Refuses))
  perform-stale (claim_nudge_by_id id) =
      untouched (Nudges.claim_nudge_by_id owner fence now id) (search (refusal, lease-Refuses))
  perform-stale claim_next_queued_nudge =
      untouched (Nudges.claim_next_queued_nudge owner fence now) (search (refusal, lease-Refuses))
  perform-stale recover_interrupted_nudges =
      untouched (Nudges.recover_interrupted_nudges owner fence now)
        (search (refusal, lease-Refuses))
  perform-stale (set_nudge_repository id g repo_full) =
      untouched (Nudges.set_nudge_repository owner fence now id g repo_full)
        (search (refusal, nudge-Refuses))
  perform-stale (mark_nudge_sending id g) =
      untouched (Nudges.mark_nudge_sending owner fence now id g) (search (refusal, nudge-Refuses))
  perform-stale (mark_nudge_posted id g comment_id) =
      untouched (Nudges.mark_nudge_posted owner fence now id g comment_id)
        (search (refusal, nudge-Refuses))
  perform-stale (requeue_nudge id g retry_after) =
      untouched (Nudges.requeue_nudge owner fence now id g retry_after)
        (search (refusal, nudge-Refuses))
  perform-stale (finish_nudge_failed id g) =
      untouched (Nudges.finish_nudge_failed owner fence now id g) (search (refusal, nudge-Refuses))
  perform-stale (mark_nudge_reconciliation_required id g) =
      untouched (Nudges.mark_nudge_reconciliation_required owner fence now id g)
        (search (refusal, nudge-Refuses))

-- A worker whose term is not the held lease term (another owner or fence, or an expired lease)
-- changes nothing by any of its calls.
pub stale_worker_changes_nothing :
    (owner : Bytes) (fence now : ℕ) (w : Work) (db : Db)
    → is_held owner fence now db.lease ≡ false
    → perform owner fence now w db ≡ db
stale_worker_changes_nothing owner fence now w db stale = perform-stale owner fence now db stale w
