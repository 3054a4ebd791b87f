-- ===== src/Lib.antt =====
-- A model of the review bot of this repository: a service that receives GitHub webhooks, queues the
-- reviews that comments ask for, runs an agent on each, and publishes its result as comments.
--
-- The bot has one SQLite database (internal/store). Webhook handlers put reviews and notifications
-- into its queues; a worker takes the singleton service lease, whose fence rises with each grant,
-- and under that term claims a review, records its result as a plan of publications, sends them
-- one by one, and finishes the review. Any number of processes may call the store at any time; each
-- call is one transaction. The model is a record of tables and, for each call, a function from the
-- clock's reading, the arguments and the database to the call's result and the next database.
--
-- Files and what they model:
--   Common         shared names, lists, comparisons, and Go strings as lists of bytes
--   Store/Schema   the rows, statuses and errors (internal/store/store.go, reviews.go, leases.go)
--   Store/Table    the SQL statements on a table; Store/Tx: transactions, commit and rollback
--   Store/Lease    internal/store/leases.go: AcquireServiceLeaseWithFence, RenewServiceLease, ...
--   Store/Reviews  internal/store/reviews.go: claimReview, RecoverInterruptedReviews, FinishReview...
--   Store/Publications  the same file: PrepareReviewPublication, ClaimPublicationForSend,
--                  BeginPublicationSend, MarkPublicationPosted, ...
--   Store/Admission  the same file: CreateReviewWithAdmission, PurgeDeliveriesBefore
--   Store/Nudges   the same file: CreateNudgeOnce, ClaimNextQueuedNudge, MarkNudgeSending, ...
--   Store/OauthStates  internal/store/users.go: createOAuthState, ConsumeOAuthState; its child
--                  Limits has the proofs
--   Store/Keys     internal/store/keys.go and internal/pool/pool.go: AcquireKey, CoolKey, ...; its
--                  child Choice has the proofs
--   Store/History  sequences of those calls, in any order and by any callers
--   Store/Keeps, Store/Frame, Store/Frame/*  which writes each operation makes
--   Store/Guards, SendOnce, Completion, Fencing, Terms, Permanence, Uniqueness, Capacity  proofs
--   Review/Utf8    internal/review/parse.go: cutUTF8, tailUTF8, truncateUTF8
--   Review/Utf8/Cutting, Review/Utf8/Validity  proofs on the cuts
--   Review/Diff    internal/review/diffmap.go: parsePatch, parseHunk; Review/Diff/Hunks: proofs
--   Server/Names   internal/server/webhook.go: mentionsBot, validGitHubLogin, validRepoFullName;
--                  Server/Names/Matches, Mentions: proofs on its search
--   Server/Webhook the same file: handleIssueComment, with the access policy of
--                  internal/config/config.go and UserByGitHubID, AppendReviewEvent of internal/store
--   Server/Webhook/Gates, Access, Reviews  proofs on the handler
--   Store/Listing  internal/store/reviews.go: ListReviewPublications
--   Config         internal/config/config.go: ValidModel
--   Review/Text, Findings, Diagram, Extract  internal/review/parse.go: normalizePath,
--                  normalizeMarkdown, normalizeFinding, normalizeSequenceDiagram, ExtractReview;
--                  their children have the proofs. Review/Index: DiffIndex of diffmap.go
--   Engine/Errors  internal/bot/engine.go and internal/gh: the errors, and which are worth a retry
--   Engine/Program the programs of the workers, as trees of the calls that they make
--   Engine/Checks, Publish, Failures, Agent, Steps, Review, Nudge  internal/bot/engine.go:
--                  reviewSideEffectError, publishPrepared, handleReviewError, runWithPool,
--                  processClaimedReview, processClaimedNudge, ...
--   Engine/Delivery  the delivery when nothing stands in its way
--   Engine/Settlement and its children  proofs on what follows a delivery that this run left uncertain
--   Engine/World   the execution of programs against the store; Engine/Budget and its children,
--                  Engine/Once: proofs on what the programs post
--   Store/Redelivery, Remembered  what CreateNudgeOnce does with a delivery, and how long deliveries
--                  stay recorded
--   Tests          runs on concrete inputs
--
-- Choices of the model. Identifiers, fences and counts (int64) are natural numbers, and values below
-- 1 are 0. Time is in nanoseconds; a column in RFC3339 keeps whole seconds, as its text does. The
-- clock is an argument, read once in a call. Random tokens are arguments. A primary key is one more
-- than the largest in use, as SQLite assigns it. An SQL statement that fails rolls back its
-- transaction and is not modelled further, and neither is the retry of a busy database. Logins are
-- ASCII. strings.ToLower and strings.EqualFold on other texts are parameters. A line number of a patch
-- is its value modulo 2^64. Only the search of mentionsBot has fuel, one more than the length of the
-- text, for each of its turns moves on; every other loop runs over a list or a number.
--
-- A worker of the engine is a tree of its calls: the store, GitHub, the pool of keys and the runner
-- answer each of them, and anything may happen between two of them. The answers of the store are those
-- of the model, unless the call fails; all others are free. Events and log lines are left out.
-- encoding/json is a parameter of the extraction of a review, as are the digest of a revision and the
-- rendering of a plan.
--
-- Not modelled: the other list queries and scans of the store, its migrations (histories start after
-- them), the engine's loop, start and stop, the prompt and the rendering of comments, the HTTP server and clients, the agent's runner and sandbox, encryption and JSON, which
-- are of the Go library or the operating system, and the browser application under web/.
pub mod Common
pub mod Config
pub mod Engine
pub mod Review
pub mod Server
pub mod Store
pub mod Tests
