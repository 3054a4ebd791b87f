-- ===== src/Engine/Once.antt =====
-- internal/bot/engine.go and internal/store together: no publication is posted twice.
use oc_review_bot.Common.{
  ℕ, zero, suc, ◌+◌, ◌≤◌, ◌≡◌, refl, Bool, true, false, List, [], ◌∷◌, Bytes, arith, ◌==◌,
  if◌then◌else◌,
}
use oc_review_bot.Store.Schema.{Db, empty_db, Review, Nudge}
use oc_review_bot.Store.Tx.{Result, ok, err}
use oc_review_bot.Store.Publications
use oc_review_bot.Store.History.{Work, Call, work, step}
use oc_review_bot.Store.Table.{next_id, count_where}
use oc_review_bot.Store.SendOnce.{budget, budget-step, send_of, is_ok}
use oc_review_bot.Engine.Errors.{Failure, Outcome, failed}
use oc_review_bot.Engine.Program.{Program, bind}
use oc_review_bot.Engine.Review.{Setup, process_claimed_review}
use oc_review_bot.Engine.Nudge.{process_claimed_nudge}
use oc_review_bot.Engine.World.{
  Answers, Database, answers, rejects, breaks, Running, advance, advance_at, reply, reply_of,
  effect_of, success,
}
use oc_review_bot.Engine.Budget.{Covers, Covers-bind, cost, earn_if, starts_send}
use oc_review_bot.Engine.Budget.Worker.{Neutral-process_claimed_review}
use oc_review_bot.Engine.Budget.Nudge.{Unpaid-process_claimed_nudge}

-- A move: another call of the store by anyone, the start of a worker on any row, or the next call of
-- one of the workers. A worker that makes no further move has crashed.
pub data Move : Type 0 where
  other_call : ℕ → Call → Move
  start_review : Setup → Review → Move
  start_nudge : Setup → Nudge → Bool → Move
  next_call : ℕ → Answers → Move

abbrev pub worker_of : Setup → Review → Program (Unit {0})
worker_of s r = bind (process_claimed_review s r) (λ ended. Program.done tt)

unfoldable pub move : Move → Running → Db → Running × Db
unfolding advance_at
move (other_call now c) ms db = (ms, step (now, c) db)
move (start_review s r) ms db = (worker_of s r ∷ ms, db)
move (start_nudge s n reconciling) ms db = (process_claimed_nudge s.config n reconciling ∷ ms, db)
move (next_call i a) ms db = advance_at i a ms db

module _ (id : ℕ) where
  -- 1 if the next call of the program posts the publication, and 0 otherwise
  unfoldable pub posts_now : Program (Unit {0}) → ℕ
  posts_now (Program.create_comment p r n f) = cost id p
  posts_now _ = 0

  earned_by :
      (test : Bool) (d : Database) (r : Result (Unit {0}) × Db)
      → earn_if test (reply_of d (success r.0)) ≤ (if test then is_ok r else 0)
  unfolding is_ok
  earned_by false d r = omega arith
  earned_by true answers (ok a, db) = omega arith
  earned_by true answers (err e, db) = omega arith
  earned_by true (rejects f) r = omega arith
  earned_by true (breaks f) r = omega arith

  unearned : (test : Bool) (e : Failure) → earn_if test (failed e) ≡ 0
  unearned true e = refl
  unearned false e = refl

  -- Credit is earned only by a recorded start of a send.
  earn-le-send :
      (w : Work) (owner : Bytes) (fence now : ℕ) (db : Db) (d : Database)
      → earn_if (starts_send id w) (reply_of d (reply owner fence now w db))
        ≤ send_of id (now, work owner fence w) db
  unfolding send_of reply
  earn-le-send (Work.begin_publication_send review_id g p) owner fence now db d =
      earned_by (p == id) d (Publications.begin_publication_send owner fence now review_id g p db)
  earn-le-send _ owner fence now db d = omega arith

  -- The credit of the program, the posts and the sends that the store still has to record
  abbrev Paid : ℕ → Program (Unit {0}) → Db → Program (Unit {0}) × Db → Type 0
  Paid k m db (m', db') =
      (k' : ℕ) × Covers id k' 0 m' × (k' + posts_now m + budget id db' ≤ k + budget id db)

  Paid-write :
      (a : Answers) (k : ℕ) (owner : Bytes) (fence : ℕ) (w : Work)
      (f : Outcome Bool → Program (Unit {0})) (db : Db) (d : Database)
      → ((x : Outcome Bool) → Covers id (earn_if (starts_send id w) x + k) 0 (f x))
      → Paid k (Program.write owner fence w f) db (
        f (reply_of d (reply owner fence a.now w db)),
        effect_of d db (step (a.now, work owner fence w) db),
      )
  unfolding posts_now
  Paid-write a k owner fence w f db answers c = (
    _,
    c _,
    omega (
      arith,
      earn-le-send w owner fence a.now db answers,
      budget-step id (a.now, work owner fence w) db,
    ),
  )
  Paid-write a k owner fence w f db (rejects e) c =
      (_, c _, omega (arith, unearned (starts_send id w) e))
  Paid-write a k owner fence w f db (breaks e) c = (
    _,
    c _,
    omega (
      arith,
      earn-le-send w owner fence a.now db (breaks e),
      budget-step id (a.now, work owner fence w) db,
    ),
  )

  advance-Paid :
      (a : Answers) (k : ℕ) (m : Program (Unit {0})) (db : Db)
      → Covers id k 0 m
      → Paid k m db (advance a m db)
  unfolding advance Covers posts_now
  advance-Paid a k (Program.write owner fence w f) db c =
      Paid-write a k owner fence w f db a.database c
  advance-Paid a k (Program.create_comment p r n f) db c = (_, c.1 a.comment, omega (arith, c.0))
  advance-Paid a k (Program.done u) db c = (k, omega arith, omega arith)
  advance-Paid a k (Program.lease_owned f) db c = (k, c _, omega arith)
  advance-Paid a k (Program.context_error f) db c = (k, c _, omega arith)
  advance-Paid a k (Program.inspect t f) db c = (k, c _, omega arith)
  advance-Paid a k (Program.list_publications i f) db c = (k, c _, omega arith)
  advance-Paid a k (Program.request r f) db c = (k, c _, omega arith)
  advance-Paid a k (Program.get_pr r n f) db c = (k, c _, omega arith)
  advance-Paid a k (Program.list_files r n f) db c = (k, c _, omega arith)
  advance-Paid a k (Program.find_marker i r n q f) db c = (k, c _, omega arith)
  advance-Paid a k (Program.model_setting f) db c = (k, c _, omega arith)
  advance-Paid a k (Program.acquire_key f) db c = (k, c _, omega arith)
  advance-Paid a k (Program.exhaust_key i f) db c = (k, c _, omega arith)
  advance-Paid a k (Program.run_agent o f) db c = (k, c _, omega arith)

  -- The programs are covered by `n` units of credit in all.
  unfoldable pub Affords : ℕ → Running → Type 0
  Affords n [] = Unit
  Affords n (m ∷ ms) = (k : ℕ) × (l : ℕ) × Covers id k 0 m × Affords l ms × (k + l ≤ n)

  unfoldable pub posts_at : ℕ → Running → ℕ
  unfolding posts_now
  posts_at i [] = 0
  posts_at zero (m ∷ ms) = posts_now m
  posts_at (suc i) (m ∷ ms) = posts_at i ms

  -- 1 if the move posts the publication, and 0 otherwise
  unfoldable pub posts_of : Move → Running → ℕ
  unfolding posts_at
  posts_of (next_call i a) ms = posts_at i ms
  posts_of _ ms = 0

  -- How often the publication is posted in a sequence of moves
  unfoldable pub posts : List Move → Running → Db → ℕ
  unfolding posts_of move
  posts [] ms db = 0
  posts (m ∷ moves) ms db = posts_of m ms + posts moves (move m ms db).0 (move m ms db).1

  abbrev AllPaid : ℕ → ℕ → Db → Running × Db → Type 0
  AllPaid n posted db (ms', db') =
      (n' : ℕ) × Affords n' ms' × (n' + posted + budget id db' ≤ n + budget id db)

  advance_at-AllPaid :
      (i : ℕ) (a : Answers) (ms : Running) (n : ℕ) (db : Db)
      → Affords n ms
      → AllPaid n (posts_at i ms) db (advance_at i a ms db)
  unfolding advance_at Affords posts_at
  advance_at-AllPaid i a [] n db c = (n, tt, omega arith)
  advance_at-AllPaid zero a (m ∷ ms) n db (k, l, c, d, h) =
      let (k', c', h') = advance-Paid a k m db c in
      (k' + l, (k', l, c', d, omega arith), omega arith)
  advance_at-AllPaid (suc i) a (m ∷ ms) n db (k, l, c, d, h) =
      let (l', d', h') = advance_at-AllPaid i a ms l db d in
      (k + l', (k, l', c, d', omega arith), omega arith)

  worker_of-Covers : (s : Setup) (r : Review) → Covers id 0 0 (worker_of s r)
  unfolding Covers
  worker_of-Covers s r =
      Covers-bind id (process_claimed_review s r) _ 0 0 0
        ((Neutral-process_claimed_review s).at 0 r) (λ ended. omega arith)

  move-AllPaid :
      (m : Move) (ms : Running) (n : ℕ) (db : Db)
      → Affords n ms
      → AllPaid n (posts_of m ms) db (move m ms db)
  unfolding move posts_of Affords
  move-AllPaid (other_call now c) ms n db d = (n, d, omega (arith, budget-step id (now, c) db))
  move-AllPaid (start_review s r) ms n db d =
      (n, (0, n, worker_of-Covers s r, d, omega arith), omega arith)
  move-AllPaid (start_nudge s m reconciling) ms n db d = (
    n,
    (0, n, (Unpaid-process_claimed_nudge s.config m reconciling).at 0, d, omega arith),
    omega arith,
  )
  move-AllPaid (next_call i a) ms n db d = advance_at-AllPaid i a ms n db d

  posts-le-budget :
      (moves : List Move) (ms : Running) (n : ℕ) (db : Db)
      → Affords n ms
      → posts moves ms db ≤ n + budget id db
  unfolding posts
  posts-le-budget [] ms n db d = omega arith
  posts-le-budget (m ∷ moves) ms n db d =
      let (n', d', h) = move-AllPaid m ms n db d in
      omega (arith, posts-le-budget moves (move m ms db).0 n' (move m ms db).1 d')

-- In any sequence of moves of any number of workers of any number of processes, which start with no
-- worker and an empty database, which may interleave and crash at any call, lose their leases and
-- get any answers of GitHub, and whose calls of the store may fail before or after their commit,
-- GitHub is called at most once to post a given publication.
pub posted_at_most_once : (moves : List Move) (id : ℕ) → posts id moves [] empty_db ≤ 1
unfolding budget next_id count_where Affords
posted_at_most_once moves id = ground (arith, posts-le-budget id moves [] 0 empty_db tt)
