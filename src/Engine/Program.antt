-- ===== src/Engine/Program.antt =====
-- The programs of internal/bot/engine.go: trees of the calls that a worker makes, each with what it
-- does for every answer. Between two calls of a worker anything may happen. recordEvent and the log
-- are observability and have no node.
use oc_review_bot.Common.{ℕ, Bool, Option, List, Bytes}
use oc_review_bot.Store.Schema.{Db, Review, Nudge, Publication, PublicationKind}
use oc_review_bot.Store.Tx.{Result}
use oc_review_bot.Store.History.{Work}
use oc_review_bot.Review.Index.{File}
use oc_review_bot.Engine.Errors.{Failure, Outcome, value, failed}

-- `gh.PR`, with the fields that the engine uses
pub record Pr : Type 0 where
  pub number : ℕ
  pub updated_at : Bytes
  pub head_sha : Bytes
  pub head_ref : Bytes
  pub base_sha : Bytes
  pub base_repository_id : ℕ
  pub base_full_name : Bytes
  pub base_repo_id : ℕ
  pub base_repo_full_name : Bytes

-- A read or an idempotent write of the GitHub API.
pub data Request : Type 0 where
  installation_token : ℕ → ℕ → Request
  get_diff : Bytes → ℕ → Request
  react : Bytes → ℕ → Bytes → Request

-- `runner.Options`, of what the engine itself decides
pub record RunOptions : Type 0 where
  pub repo_full : Bytes
  pub pr_number : ℕ
  pub expected_sha : Bytes
  pub model : Bytes
  pub key_id : ℕ
  pub diff : Bytes

-- What a comment is posted for.
pub data Post : Type 0 where
  publication_post : Publication → Post
  nudge_post : Nudge → Post

pub data Program (A : Type 0) : Type 0 where
  done : A → Program A
  -- serviceLeaseOwned, and ctx.Err()
  lease_owned : (Bool → Program A) → Program A
  context_error : (Option Failure → Program A) → Program A
  -- a write of the store under a lease term
  write : Bytes → ℕ → Work → (Outcome Bool → Program A) → Program A
  -- a test of the store at a reading of the clock
  inspect : (ℕ → Db → Result Bool) → (Outcome Bool → Program A) → Program A
  list_publications : ℕ → (Outcome (List Publication) → Program A) → Program A
  -- the GitHub API: reads, searches of a marker, and posts of a comment
  request : Request → (Outcome Bytes → Program A) → Program A
  get_pr : Bytes → ℕ → (Outcome Pr → Program A) → Program A
  list_files : Bytes → ℕ → (Outcome (List File) → Program A) → Program A
  find_marker : PublicationKind → Bytes → ℕ → Bytes → (Outcome (Option ℕ) → Program A) → Program A
  create_comment : Post → Bytes → ℕ → (Outcome ℕ → Program A) → Program A
  -- the settings, the pool of keys and the runner
  model_setting : (Bytes → Program A) → Program A
  acquire_key : (Outcome ℕ → Program A) → Program A
  exhaust_key : ℕ → (Outcome Bool → Program A) → Program A
  run_agent : RunOptions → (Outcome Bytes → Program A) → Program A

module _ {A B : Type 0} where
  unfoldable pub bind : Program A → (A → Program B) → Program B
  bind (done a) f = f a
  bind (lease_owned k) f = lease_owned (λ x. bind (k x) f)
  bind (context_error k) f = context_error (λ x. bind (k x) f)
  bind (write o n w k) f = write o n w (λ x. bind (k x) f)
  bind (inspect t k) f = inspect t (λ x. bind (k x) f)
  bind (list_publications i k) f = list_publications i (λ x. bind (k x) f)
  bind (request r k) f = request r (λ x. bind (k x) f)
  bind (get_pr r n k) f = get_pr r n (λ x. bind (k x) f)
  bind (list_files r n k) f = list_files r n (λ x. bind (k x) f)
  bind (find_marker c r n m k) f = find_marker c r n m (λ x. bind (k x) f)
  bind (create_comment p r n k) f = create_comment p r n (λ x. bind (k x) f)
  bind (model_setting k) f = model_setting (λ x. bind (k x) f)
  bind (acquire_key k) f = acquire_key (λ x. bind (k x) f)
  bind (exhaust_key i k) f = exhaust_key i (λ x. bind (k x) f)
  bind (run_agent o k) f = run_agent o (λ x. bind (k x) f)

-- The parts of a worker's program on one review: it may fail, and it updates its copy of the row.
abbrev pub Action : Type 0 → Type 0
Action A = Review → Program (Outcome A × Review)

module _ {A B : Type 0} where
  abbrev pub go_on : (A → Action B) → Outcome A × Review → Program (Outcome B × Review)
  go_on f (value a, r) = f a r
  go_on f (failed e, r) = done (failed e, r)

  infixl 5 ◌>>=◌ ◌>>◌
  unfoldable pub ◌>>=◌ : Action A → (A → Action B) → Action B
  unfolding bind
  ◌>>=◌ m f r = bind (m r) (go_on f)

  abbrev pub ◌>>◌ : Action A → Action B → Action B
  m >> n = m >>= λ _. n

  -- Goes on with what the part returned, an error too.
  abbrev pub with_outcome :
      (Outcome A → Action B) → Outcome A × Review → Program (Outcome B × Review)
  with_outcome f (out, r) = f out r

  unfoldable pub after : Action A → (Outcome A → Action B) → Action B
  unfolding bind
  after m f r = bind (m r) (with_outcome f)

module _ {A : Type 0} where
  unfoldable pub pure : A → Action A
  pure a r = done (value a, r)

  unfoldable pub fail : Failure → Action A
  fail e r = done (failed e, r)

  -- The outcome of one call.
  abbrev pub keep : Review → Outcome A → Program (Outcome A × Review)
  keep r out = done (out, r)

unfoldable pub the_review : Action Review
the_review r = done (value r, r)

unfoldable pub set_review : (Review → Review) → Action (Unit {0})
set_review f r = done (value tt, f r)
