-- ===== src/Engine/Errors.antt =====
-- internal/bot/engine.go and internal/gh/gh.go: the errors that the engine tells apart. An error is
-- the list of what errors.Is and errors.As find in it, in their order; errors.Join appends.
use oc_review_bot.Common.{
  ℕ, ◌*◌, Bool, true, false, ◌||◌, Option, none, some, List, [], ◌∷◌, leb, ◌==◌, any, if◌then◌else◌,
}
use oc_review_bot.Store.Schema.{
  Error, not_found, review_lease_lost, review_not_ready, publication_reconcile, nudge_lease_lost,
  nudge_reconcile, service_lease_lost, second,
}

pub data Cause : Type 0 where
  -- an error of internal/store, and any other error of the database
  store : Error → Cause
  sqlite : ℕ → Cause
  -- gh.HTTPError with its status, and a net.Error, by whether it is a timeout or temporary
  http : ℕ → Cause
  network : Bool → Cause
  rate_limit canceled deadline_exceeded : Cause
  -- internal/runner
  head_changed quota aborted execution checkout_too_large checkout_rejected : Cause
  output_too_large sandbox_unavailable : Cause
  -- internal/pool and the engine itself
  pool_empty review_access publication_in_flight repository_identity review_revision other : Cause

abbrev pub Failure : Type 0
Failure = List Cause

pub data Outcome (A : Type 0) : Type 0 where
  value : A → Outcome A
  failed : Failure → Outcome A

module _ {A B : Type 0} where
  abbrev pub map_outcome : (A → B) → Outcome A → Outcome B
  map_outcome f (value a) = value (f a)
  map_outcome f (failed e) = failed e

-- errors.Is with each sentinel that the engine compares with
abbrev pub is_publication_reconcile : Cause → Bool
is_publication_reconcile (store publication_reconcile) = true
is_publication_reconcile _ = false

abbrev pub is_review_lease_lost : Cause → Bool
is_review_lease_lost (store review_lease_lost) = true
is_review_lease_lost _ = false

abbrev pub is_review_not_ready : Cause → Bool
is_review_not_ready (store review_not_ready) = true
is_review_not_ready _ = false

abbrev pub is_nudge_lease_lost : Cause → Bool
is_nudge_lease_lost (store nudge_lease_lost) = true
is_nudge_lease_lost _ = false

abbrev pub is_nudge_reconcile : Cause → Bool
is_nudge_reconcile (store nudge_reconcile) = true
is_nudge_reconcile _ = false

abbrev pub is_service_lease_lost : Cause → Bool
is_service_lease_lost (store service_lease_lost) = true
is_service_lease_lost _ = false

abbrev pub is_not_found : Cause → Bool
is_not_found (store not_found) = true
is_not_found _ = false

abbrev pub is_in_flight : Cause → Bool
is_in_flight publication_in_flight = true
is_in_flight _ = false

abbrev pub is_head_changed : Cause → Bool
is_head_changed head_changed = true
is_head_changed _ = false

abbrev pub is_review_access : Cause → Bool
is_review_access review_access = true
is_review_access _ = false

abbrev pub is_quota : Cause → Bool
is_quota quota = true
is_quota _ = false

abbrev pub is_aborted : Cause → Bool
is_aborted aborted = true
is_aborted _ = false

abbrev pub is_execution : Cause → Bool
is_execution execution = true
is_execution _ = false

abbrev pub is_checkout_too_large : Cause → Bool
is_checkout_too_large checkout_too_large = true
is_checkout_too_large _ = false

abbrev pub is_checkout_rejected : Cause → Bool
is_checkout_rejected checkout_rejected = true
is_checkout_rejected _ = false

abbrev pub is_output_too_large : Cause → Bool
is_output_too_large output_too_large = true
is_output_too_large _ = false

abbrev pub is_sandbox_unavailable : Cause → Bool
is_sandbox_unavailable sandbox_unavailable = true
is_sandbox_unavailable _ = false

abbrev pub is_pool_empty : Cause → Bool
is_pool_empty pool_empty = true
is_pool_empty _ = false

abbrev pub is_canceled : Cause → Bool
is_canceled canceled = true
is_canceled _ = false

abbrev pub is_deadline_exceeded : Cause → Bool
is_deadline_exceeded deadline_exceeded = true
is_deadline_exceeded _ = false

-- errors.Is
abbrev pub errors_is : (Cause → Bool) → Failure → Bool
errors_is test = any test

-- An HTTPError with status 429 unwraps to ErrRateLimit.
abbrev is_rate_limit : Cause → Bool
is_rate_limit rate_limit = true
is_rate_limit (http status) = status == 429
is_rate_limit _ = false

-- errors.As with *HTTPError
unfoldable pub as_http : Failure → Option ℕ
as_http [] = none
as_http (http status ∷ e) = some status
as_http (c ∷ e) = as_http e

-- errors.As with net.Error, by whether it is a timeout or temporary, as context.DeadlineExceeded is
unfoldable pub as_network : Failure → Option Bool
as_network [] = none
as_network (network transient ∷ e) = some transient
as_network (deadline_exceeded ∷ e) = some true
as_network (c ∷ e) = as_network e

unfoldable pub as_sqlite : Failure → Option ℕ
as_sqlite [] = none
as_sqlite (sqlite code ∷ e) = some code
as_sqlite (c ∷ e) = as_sqlite e

abbrev is_transient : Option Bool → Bool
is_transient none = false
is_transient (some t) = t

abbrev is_retryable_status : Option ℕ → Option Bool → Bool
is_retryable_status (some status) net = status == 408 || leb 500 status
is_retryable_status none net = is_transient net

-- `gh.IsRetryable`
unfoldable pub is_retryable : Failure → Bool
unfolding as_http as_network
is_retryable e = errors_is is_rate_limit e || is_retryable_status (as_http e) (as_network e)

-- `isRetryableReviewError`
unfoldable pub is_retryable_review_error : Failure → Bool
is_retryable_review_error e =
    is_retryable e
    || errors_is is_pool_empty e
    || errors_is is_quota e
    || errors_is is_aborted e
    || errors_is is_deadline_exceeded e
    || errors_is is_review_not_ready e
    || errors_is is_in_flight e

-- The classes of `reviewErrorClass`; `pi` says that the review engine is pi.
pub data ErrorClass : Type 0 where
  class_checkout_too_large class_checkout_rejected class_provider_quota class_model_aborted :
      ErrorClass
  class_pi_execution class_opencode_execution class_head_changed class_output_too_large : ErrorClass
  class_sandbox_unavailable class_no_key_available class_review_not_ready : ErrorClass
  class_publication_in_flight class_github_transient class_timeout : ErrorClass
  class_github_http class_sqlite : ℕ → ErrorClass
  class_network_error class_unknown : ErrorClass

abbrev default_class : Option ℕ → Option ℕ → Option Bool → ErrorClass
default_class (some status) code net = class_github_http status
default_class none (some code) net = class_sqlite code
default_class none none (some net) = class_network_error
default_class none none none = class_unknown

unfoldable pub review_error_class : Failure → Bool → ErrorClass
unfolding as_http as_network as_sqlite
review_error_class e pi =
    if errors_is is_checkout_too_large e
    then class_checkout_too_large
    else if errors_is is_checkout_rejected e
    then class_checkout_rejected
    else if errors_is is_quota e
    then class_provider_quota
    else if errors_is is_aborted e
    then class_model_aborted
    else if errors_is is_execution e
    then (if pi then class_pi_execution else class_opencode_execution)
    else if errors_is is_head_changed e
    then class_head_changed
    else if errors_is is_output_too_large e
    then class_output_too_large
    else if errors_is is_sandbox_unavailable e
    then class_sandbox_unavailable
    else if errors_is is_pool_empty e
    then class_no_key_available
    else if errors_is is_review_not_ready e
    then class_review_not_ready
    else if errors_is is_in_flight e
    then class_publication_in_flight
    else if is_retryable e
    then class_github_transient
    else if errors_is is_deadline_exceeded e
    then class_timeout
    else default_class (as_http e) (as_sqlite e) (as_network e)

abbrev pub transient_retry_delay : ℕ
transient_retry_delay = 15 * second

abbrev pub max_delivery_attempts : ℕ
max_delivery_attempts = 5
