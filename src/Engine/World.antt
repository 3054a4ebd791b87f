-- ===== src/Engine/World.antt =====
-- internal/bot/engine.go: the execution of the workers. Any number of workers of any number of
-- processes run their programs against one store; a move lets one of them make its next call.
use oc_review_bot.Common.{Bool, true, ℕ, zero, suc, Option, List, [], ◌∷◌, Bytes}
use oc_review_bot.Store.Schema.{Db}
use oc_review_bot.Store.Tx.{Result, ok, err}
use oc_review_bot.Store.Reviews
use oc_review_bot.Store.Publications
use oc_review_bot.Store.Nudges
use oc_review_bot.Store.Listing.{list_review_publications}
use oc_review_bot.Store.History.{Work, work, step}
use oc_review_bot.Engine.Errors.{Failure, Outcome, value, failed, store}
use oc_review_bot.Engine.Program.{Program, Pr}
use oc_review_bot.Review.Index.{File}

module _ {A : Type 0} where
  abbrev pub success : Result A → Outcome Bool
  success (ok a) = value true
  success (err e) = failed (store e ∷ [])

abbrev pub decision : Result Bool → Outcome Bool
decision (ok b) = value b
decision (err e) = failed (store e ∷ [])

module _ (owner : Bytes) (fence now : ℕ) where
  -- What the store answers to the worker.
  unfoldable pub reply : Work → Db → Outcome Bool
  reply (Work.claim_review_by_id id) db =
      success (Reviews.claim_review_by_id owner fence now id db).0
  reply Work.claim_next_queued_review db =
      success (Reviews.claim_next_queued_review owner fence now db).0
  reply Work.recover_interrupted_reviews db =
      success (Reviews.recover_interrupted_reviews owner fence now db).0
  reply (Work.set_review_execution id g model key_id) db =
      success (Reviews.set_review_execution owner fence now id g model key_id db).0
  reply (Work.set_review_revision id g repo_full sha revision) db =
      success (Reviews.set_review_revision owner fence now id g repo_full sha revision db).0
  reply (Work.prepare_review_publication id g plan tokens) db =
      success (Publications.prepare_review_publication owner fence now id g plan tokens db).0
  reply (Work.claim_publication_for_send review_id g id) db =
      decision (Publications.claim_publication_for_send owner fence now review_id g id db).0
  reply (Work.begin_publication_send review_id g id) db =
      success (Publications.begin_publication_send owner fence now review_id g id db).0
  reply (Work.mark_publication_posted review_id g id comment_id) db =
      success (Publications.mark_publication_posted owner fence now review_id g id comment_id db).0
  reply (Work.mark_publication_reconciliation_required review_id g id) db =
      success
        (Publications.mark_publication_reconciliation_required owner fence now review_id g id db).0
  reply (Work.finish_review_reconciliation_required id g text) db =
      success (Reviews.finish_review_reconciliation_required owner fence now id g text db).0
  reply (Work.finish_review_done id g) db =
      success (Reviews.finish_review_done owner fence now id g db).0
  reply (Work.finish_review_failed id g text) db =
      success (Reviews.finish_review_failed owner fence now id g text db).0
  reply (Work.requeue_review id g retry_after) db =
      success (Reviews.requeue_review owner fence now id g retry_after db).0
  reply (Work.claim_nudge_by_id id) db = success (Nudges.claim_nudge_by_id owner fence now id db).0
  reply Work.claim_next_queued_nudge db =
      success (Nudges.claim_next_queued_nudge owner fence now db).0
  reply Work.recover_interrupted_nudges db =
      success (Nudges.recover_interrupted_nudges owner fence now db).0
  reply (Work.set_nudge_repository id g repo_full) db =
      success (Nudges.set_nudge_repository owner fence now id g repo_full db).0
  reply (Work.mark_nudge_sending id g) db =
      success (Nudges.mark_nudge_sending owner fence now id g db).0
  reply (Work.mark_nudge_posted id g comment_id) db =
      success (Nudges.mark_nudge_posted owner fence now id g comment_id db).0
  reply (Work.requeue_nudge id g retry_after) db =
      success (Nudges.requeue_nudge owner fence now id g retry_after db).0
  reply (Work.finish_nudge_failed id g) db =
      success (Nudges.finish_nudge_failed owner fence now id g db).0
  reply (Work.mark_nudge_reconciliation_required id g) db =
      success (Nudges.mark_nudge_reconciliation_required owner fence now id g db).0

-- How a call of the store goes: it is answered, it fails with nothing done, or it fails although its
-- transaction was committed.
pub data Database : Type 0 where
  answers : Database
  rejects breaks : Failure → Database

-- What the world answers at one move. Only the store's own answers are not free.
pub record Answers : Type 0 where
  pub now : ℕ
  pub owned : Bool
  pub context : Option Failure
  pub database : Database
  pub body : Outcome Bytes
  pub pr : Outcome Pr
  pub files : Outcome (List File)
  pub marker : Outcome (Option ℕ)
  pub comment : Outcome ℕ
  pub model : Bytes
  pub key : Outcome ℕ
  pub cooled : Outcome Bool

abbrev pub reply_of : Database → Outcome Bool → Outcome Bool
reply_of answers out = out
reply_of (rejects e) out = failed e
reply_of (breaks e) out = failed e

abbrev pub effect_of : Database → Db → Db → Db
effect_of answers before after = after
effect_of (rejects e) before after = before
effect_of (breaks e) before after = after

module _ {B : Type 0} where
  abbrev read_of : Database → B → Outcome B
  read_of answers b = value b
  read_of (rejects e) b = failed e
  read_of (breaks e) b = failed e

module _ {A : Type 0} where
  -- One call of a program.
  unfoldable pub advance : Answers → Program A → Db → Program A × Db
  unfolding reply
  advance a (Program.done x) db = (Program.done x, db)
  advance a (Program.lease_owned k) db = (k a.owned, db)
  advance a (Program.context_error k) db = (k a.context, db)
  advance a (Program.write owner fence w k) db = (
    k (reply_of a.database (reply owner fence a.now w db)),
    effect_of a.database db (step (a.now, work owner fence w) db),
  )
  advance a (Program.inspect t k) db = (k (reply_of a.database (decision (t a.now db))), db)
  advance a (Program.list_publications id k) db =
      (k (read_of a.database (list_review_publications id db)), db)
  advance a (Program.request r k) db = (k a.body, db)
  advance a (Program.get_pr repo n k) db = (k a.pr, db)
  advance a (Program.list_files repo n k) db = (k a.files, db)
  advance a (Program.find_marker kind repo n m k) db = (k a.marker, db)
  advance a (Program.create_comment post repo n k) db = (k a.comment, db)
  advance a (Program.model_setting k) db = (k a.model, db)
  advance a (Program.acquire_key k) db = (k a.key, db)
  advance a (Program.exhaust_key i k) db = (k a.cooled, db)
  advance a (Program.run_agent o k) db = (k a.body, db)

-- The programs that run, and the store.
abbrev pub Running : Type 0
Running = List (Program (Unit {0}))

-- The next call of the i-th program.
unfoldable pub advance_at : ℕ → Answers → Running → Db → Running × Db
unfolding advance
advance_at i a [] db = ([], db)
advance_at zero a (m ∷ ms) db =
    let (m', db') : Program (Unit {0}) × Db = advance a m db in (m' ∷ ms, db')
advance_at (suc i) a (m ∷ ms) db =
    let (ms', db') : Running × Db = advance_at i a ms db in (m ∷ ms', db')
