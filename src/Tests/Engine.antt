-- ===== src/Tests/Engine.antt =====
-- internal/bot/engine.go: a worker on a prepared review, up to its first post, and a second
-- one that then takes turns with it.
use oc_review_bot.Common.{
  false, refl, ◌≡◌, is_empty, has_prefix, trim_space, trim_left, trim_right, trim_left_backwards, ℕ,
  zero, suc, ◌*◌, ◌≤◌, true, none, some, List, [], ◌∷◌, ◌++◌, codes, text_eq, to_lower,
}
use oc_review_bot.Store.Schema.{
  Review, empty_db, second, publication_reconcile, Publication, summary, pending,
}
use oc_review_bot.Store.History.{
  acquire_lease, admit_review, work, claim_next_queued_review, set_review_execution,
  prepare_review_publication,
}
use oc_review_bot.Server.Webhook.{Config}
use oc_review_bot.Review.Extract.{Library}
use oc_review_bot.Engine.Errors.{value, Failure, store, network}
use oc_review_bot.Engine.Program.{Pr, publication_post}
use oc_review_bot.Engine.Review.{Setup}
use oc_review_bot.Server.Names.{valid_repo_full_name}
use oc_review_bot.Engine.Checks.{verify_pr_target, revision_token}
use oc_review_bot.Engine.Delivery.{
  oblige, IsCurrent, IsDue, undelivered, publish_prepared-undelivered,
}
use oc_review_bot.Engine.Publish.{publish_prepared}
use oc_review_bot.Engine.Failures.{handle_review_error}
use oc_review_bot.Engine.Settlement.{Holds}
use oc_review_bot.Engine.Settlement.Tidy.{Strict}
use oc_review_bot.Engine.Settlement.Publish.{publish_prepared-Holds}
use oc_review_bot.Engine.Settlement.Failures.{Reconciles, handle_review_error-Reconciles}
use oc_review_bot.Engine.World.{Answers, answers}
use oc_review_bot.Engine.Once.{
  Move, other_call, start_review, next_call, posts, posted_at_most_once,
}
use oc_review_bot.Tests.Histories.{worker, limits, request, tokens, plan}

abbrev policy : Config
policy = record {
  bot_username = codes "bot";
  installation_ids = 5 ∷ [];
  repository_ids = 7 ∷ [];
  admin_github_ids = 9 ∷ [];
  reviewer_github_ids = [];
  admission = limits;
}

abbrev pub texts : Library
texts = record {
  to_upper = λ s. s;
  to_lower = to_lower;
  equal_fold = text_eq;
  unmarshal_review = λ s. none;
  unmarshal_string = λ s. some s;
  unmarshal_array = λ s. none;
  unmarshal_object = λ s. none;
  unmarshal_int64 = λ s. none;
}

abbrev pub setup : Setup
setup = record {
  library = texts;
  digest = λ s. s;
  config = policy;
  zen_cooldown = 0;
  pi = true;
  failure_text = λ c. codes "failed";
  plan_of = λ r pr result kept. plan;
  tokens = tokens;
}

abbrev pull_request : Pr
pull_request = record {
  number = 12;
  updated_at = [];
  head_sha = codes "c0";
  head_ref = codes "f";
  base_sha = codes "b0";
  base_repository_id = 7;
  base_full_name = codes "a/b";
  base_repo_id = 0;
  base_repo_full_name = [];
}

-- The row as it was claimed, after its preparation
abbrev pub claimed : Review
claimed = record (request 40) {
  id = 1;
  execution_generation = 1;
  service_lease_owner = worker;
  claim_fence = 1;
  publication_prepared = true;
  head_sha = codes "c0";
  head_revision = codes "c0" ++ (0 ∷ codes "b0" ++ (0 ∷ codes "f"));
}

abbrev usual : Answers
usual = record {
  now = 4 * second;
  owned = true;
  context = none;
  database = answers;
  body = value [];
  pr = value pull_request;
  files = value [];
  marker = value none;
  comment = value 501;
  model = codes "p/m";
  key = value 4;
  cooled = value true;
}

abbrev turns : ℕ → List Move
turns zero = []
turns (suc n) = next_call 0 usual ∷ next_call 1 usual ∷ turns n

abbrev alone : ℕ → List Move → List Move
alone zero rest = rest
alone (suc n) rest = next_call 0 usual ∷ alone n rest

abbrev moves : List Move
moves =
    other_call second (acquire_lease worker (60 * second))
    ∷ other_call second (admit_review (request 40) (codes "d1") limits (codes "t"))
    ∷ other_call (2 * second) (work worker 1 claim_next_queued_review)
    ∷ other_call (2 * second) (work worker 1 (set_review_execution 1 1 (codes "m") 4))
    ∷ other_call (3 * second) (work worker 1 (prepare_review_publication 1 1 plan tokens))
    ∷ start_review setup claimed
    ∷ alone 59 (start_review setup claimed ∷ turns 40)

posted_at_most_once_example : posts 1 moves [] empty_db ≤ 1
posted_at_most_once_example = posted_at_most_once moves 1

publish_prepared-Holds_example :
    Holds 1 Strict false (publish_prepared text_eq setup.digest claimed)
publish_prepared-Holds_example = publish_prepared-Holds text_eq setup.digest 1 claimed

abbrev broken_post : Failure
broken_post = store publication_reconcile ∷ network true ∷ []

handle_review_error-Reconciles_example :
    Reconciles claimed true
      (handle_review_error 0 true setup.failure_text (codes "t") broken_post claimed)
handle_review_error-Reconciles_example =
    handle_review_error-Reconciles 0 true setup.failure_text (codes "t") broken_post claimed refl

abbrev waiting : Publication
waiting = record {
  id = 1;
  review_id = 1;
  kind = summary;
  ordinal = 0;
  marker = codes "m";
  body_md = codes "ok";
  commit_sha = codes "c0";
  path = [];
  side = [];
  line = 0;
  finding_id = 0;
  status = pending;
  posted_comment_id = 0;
  created_at = second;
  posted_at = none;
  service_lease_owner = [];
  service_lease_fence = 0;
  send_started_at = none;
}

is_current : IsCurrent text_eq setup.digest pull_request claimed
unfolding verify_pr_target revision_token text_eq is_empty has_prefix trim_space trim_left
    trim_right trim_left_backwards valid_repo_full_name
is_current = record {
  is_target = refl;
  has_token = refl;
  has_revision = refl;
  same_revision = refl;
  same_head = refl;
}

is_due : IsDue text_eq pull_request waiting
unfolding text_eq
is_due = record { in_order = refl; of_head = refl }

publish_prepared-undelivered_example :
    oblige (waiting ∷ []) pull_request (publish_prepared text_eq setup.digest claimed)
    ≡ (publication_post waiting ∷ [], (value true, claimed))
unfolding undelivered
publish_prepared-undelivered_example =
    publish_prepared-undelivered (waiting ∷ []) pull_request text_eq setup.digest claimed is_current
      (is_due, tt)

abbrev posts_of_one : ℕ
posts_of_one = posts 1 moves [] empty_db
