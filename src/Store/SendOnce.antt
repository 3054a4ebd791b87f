-- ===== src/Store/SendOnce.antt =====
-- How often a publication is sent to GitHub: a send is a successful `BeginPublicationSend`, the
-- write that stands directly before the POST.
use oc_review_bot.Common.{
  ℕ, ◌+◌, ◌≤◌, ◌≡◌, refl, ap, inl, inr, Bool, true, ◌&&◌, some, List, [], ◌∷◌, arith, leb, ◌==◌,
  if◌then◌else◌, Bool-cases, Bytes,
}
use oc_review_bot.Store.Schema.{Db, empty_db, Publication, sending, is_pending}
use oc_review_bot.Store.Table.{count_where, update_where, next_id}
use oc_review_bot.Store.Table.Counting.{
  count_where-update-le, count_where-update_drop, count_where-append, next_id-update,
  next_id-append,
}
use oc_review_bot.Store.Tx.{Result, ok, err, ◌>>=◌, transact, gets, modify, require, commit, pure}
use oc_review_bot.Store.Guards.{review_guard_cases}
use oc_review_bot.Store.Reviews.{require_review_mutation}
use oc_review_bot.Store.Publications
use oc_review_bot.Store.Frame.{Frame, LeaseFrame, PurgeFrame, PublicationWrite}
use oc_review_bot.Store.History.{Call, work, begin_publication_send, step, perform}
use oc_review_bot.Store.History.Induction.{step-keeps}

unfoldable pub is_ok : {A : Type 0} → Result A × Db → ℕ
is_ok (ok a, db) = 1
is_ok (err e, db) = 0

module _ (id : ℕ) where
  -- 1 if the call records the start of a send of publication `id`, and 0 otherwise
  unfoldable pub send_of : ℕ × Call → Db → ℕ
  send_of (now, work owner fence (begin_publication_send review_id generation publication_id)) db =
      if publication_id == id
      then is_ok (
          Publications.begin_publication_send owner fence now review_id generation publication_id
            db)
      else 0
  send_of _ db = 0

  -- The sends of publication `id` in a history.
  unfoldable pub sends : List (ℕ × Call) → Db → ℕ
  sends [] db = 0
  sends (c ∷ cs) db = send_of c db + sends cs (step c db)

  abbrev is_open : Publication → Bool
  is_open p = p.id == id && is_pending p.status

  -- The sends that are still possible: of the row that waits, or of one not inserted yet.
  unfoldable pub budget : Db → ℕ
  budget db =
      (if leb (next_id (λ p. p.id) db.publications) id then 1 else 0)
      + count_where is_open db.publications

  module _ (b : ℕ) where
    abbrev Within : Db → Type 0
    Within db = budget db ≤ b

    -- No write of the store makes room for one more send.
    budget_frame : Frame Within
    unfolding budget
    budget_frame = record {
      reviews = λ test f db w h. h;
      completion = λ test f db w h. h;
      publications = λ test f db w h. omega (
        arith,
        h,
        ap {B = ℕ} (λ n. if leb n id then 1 else 0)
            (next_id-update (λ p. p.id) test f (λ p t. (w p t).same_id) db.publications),
        count_where-update-le is_open test f (λ p t. open_before (w p t)) db.publications,
      );
      nudges = λ test f db w h. h;
      findings = λ fs db h. h;
      deliveries = λ ds db e h. h;
      new_review = λ r db i q c h. h;
      new_publication = λ p db i q c h. ground (
        arith,
        next_id-append (λ r. r.id) db.publications p i,
        count_where-append is_open db.publications p,
      );
      new_nudge = λ n db i q h. h;
    }
      where
        open_before :
            {p q : Publication} → PublicationWrite p q → is_open q ≡ true → is_open p ≡ true
        open_before w h = ground arith

    budget_leases : LeaseFrame Within
    unfolding budget
    budget_leases = record { lease = λ l db le h. h }

    budget_purges : PurgeFrame Within
    unfolding budget
    budget_purges = record { purge = λ ds db h. h }

  abbrev sent : Bytes → ℕ → ℕ → Publication → Publication
  sent owner fence now p = record p {
    status = sending;
    service_lease_owner = owner;
    service_lease_fence = fence;
    send_started_at = some now;
  }

  taken :
      (owner : Bytes) (fence now review_id : ℕ) (xs : List Publication)
      → count_where is_open (
            update_where
              (Publications.is_claimed_pending owner fence now review_id id)
              (sent owner fence now)
              xs)
          + count_where (Publications.is_claimed_pending owner fence now review_id id) xs
        ≡ count_where is_open xs
  unfolding Publications.is_claimed_pending
  taken owner fence now review_id xs =
      count_where-update_drop is_open _ _ (λ p t. ground arith) (λ p t. ground arith) xs

  -- A recorded send takes the waiting row.
  begin_drop :
      (owner : Bytes) (fence now review_id generation : ℕ) (db : Db)
      → budget (Publications.begin_publication_send owner fence now review_id generation id db).1
          + is_ok (Publications.begin_publication_send owner fence now review_id generation id db)
        ≤ budget db
  unfolding Publications.begin_publication_send Publications.update_publications transact ◌>>=◌ gets
      modify require commit pure require_review_mutation is_ok budget
  begin_drop owner fence now review_id generation db =
      elim (review_guard_cases owner fence now db review_id generation) [
        | inl p ↦
            rw (p, ◌>>=◌)
              (elim (Bool-cases (
                count_where (Publications.is_claimed_pending owner fence now review_id id)
                  db.publications
                == 0)) [
                  | inl z ↦ rw z (omega arith)
                  | inr n ↦ rw n (
                      rw
                        (next_id-update (λ q. q.id)
                          (Publications.is_claimed_pending owner fence now review_id id)
                          (sent owner fence now) (λ q t. refl) db.publications)
                        (ground (arith, taken owner fence now review_id db.publications)))
                ])
        | inr (e, p) ↦ rw (p, ◌>>=◌) (omega arith)
      ]

  budget_kept : (c : ℕ × Call) (db : Db) → budget (step c db) ≤ budget db
  budget_kept c db =
      step-keeps (budget_frame (budget db)) (budget_leases (budget db)) (budget_purges (budget db))
        c db (omega arith)

  begin_step :
      (owner : Bytes) (fence now review_id generation publication_id : ℕ) (db : Db)
      → budget (
            step
              (now, work owner fence (begin_publication_send review_id generation publication_id))
              db)
          + send_of
              (now, work owner fence (begin_publication_send review_id generation publication_id))
              db
        ≤ budget db
  unfolding step perform send_of
  begin_step owner fence now review_id generation publication_id db =
      elim (Bool-cases (publication_id == id)) [
        | inl e ↦
            let same : publication_id ≡ id = ground arith in
            rw (e, same) (begin_drop owner fence now review_id generation db)
        | inr e ↦ rw e (
            omega (
              arith,
              budget_kept
                  (
                    now,
                    work owner fence (begin_publication_send review_id generation publication_id),
                  )
                  db,
            ))
      ]

  pub budget-step : (c : ℕ × Call) (db : Db) → budget (step c db) + send_of c db ≤ budget db
  unfolding send_of
  budget-step (now, work owner fence (begin_publication_send review_id generation publication_id))
        db =
      begin_step owner fence now review_id generation publication_id db
  budget-step c db = omega (arith, budget_kept c db)

  sends-le-budget : (cs : List (ℕ × Call)) (db : Db) → sends cs db ≤ budget db
  unfolding sends
  sends-le-budget [] db = omega arith
  sends-le-budget (c ∷ cs) db = omega (arith, budget-step c db, sends-le-budget cs (step c db))

-- In any history of calls from the empty database, by any workers at any times, the start of a
-- send is recorded at most once for a publication.
pub sent_at_most_once : (cs : List (ℕ × Call)) (id : ℕ) → sends id cs empty_db ≤ 1
unfolding budget next_id count_where
sent_at_most_once cs id = ground (arith, sends-le-budget id cs empty_db)
