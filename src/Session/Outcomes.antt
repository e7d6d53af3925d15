-- ===== src/Session/Outcomes.antt =====
-- frontend/src/features/auth/AuthContext.tsx: the outcomes of its actions, and how errors are classified.
use restaurant_ordering_anal.Base.{
  ℕ, Bool, true, false, ◌&&◌, Option, none, some, if◌then◌else◌, ◌==◌,
}
use restaurant_ordering_anal.Api.Errors.{
  ApiErrorClass, ApiRequestErrorKind, ApiRequestError, plain, checkout, aborted, http,
  invalid_response, network, timeout,
}
use restaurant_ordering_anal.Api.Errors
use restaurant_ordering_anal.Session.Users.{AuthUser, TokenRequest, login, register, demo_session}
use restaurant_ordering_anal.Session.State.{Caller, nobody, refreshing, establishing}

pub data AuthActionOutcome : Type 0 where
  action_aborted account_exists authenticated invalid_credentials broken_response :
      AuthActionOutcome
  unreachable service_unavailable session_unavailable timed_out validation : AuthActionOutcome
  rate_limited : Option ℕ → AuthActionOutcome

pub data ValidationResult : Type 0 where
  valid : AuthUser → ValidationResult
  superseded temporary invalid : ValidationResult

-- What a promise resolves to: nothing yet or nothing of interest, a user, or the outcome of an action.
pub data Answer : Type 0 where
  nothing : Answer
  user_answer : Option AuthUser → Answer
  outcome : AuthActionOutcome → Answer

abbrev pub is_auth_error : ApiRequestError → Bool
is_auth_error e = of_class e.origin
  where
    of_class : ApiErrorClass → Bool
    of_class Errors.authenticated = true
    of_class _ = false

-- `classifyCredentialError` on an `AuthApiRequestError`.
abbrev pub classify_status : Option ℕ → Option ℕ → AuthActionOutcome
classify_status none retry_after = unreachable
classify_status (some status) retry_after =
    if status == 401
    then invalid_credentials
    else if status == 409
    then account_exists
    else if status == 422
    then validation
    else if status == 429
    then rate_limited retry_after
    else if status == 503
    then service_unavailable
    else unreachable

abbrev pub classify_kind : ApiRequestErrorKind → Option ℕ → Option ℕ → AuthActionOutcome
classify_kind aborted status retry_after = action_aborted
classify_kind timeout status retry_after = timed_out
classify_kind network status retry_after = unreachable
classify_kind invalid_response status retry_after = broken_response
classify_kind http status retry_after = classify_status status retry_after

unfoldable pub classify_credential_error : ApiRequestError → AuthActionOutcome
classify_credential_error e =
    if is_auth_error e then classify_kind e.kind e.status e.retry_after_seconds else unreachable

abbrev pub is_kind_aborted : ApiRequestErrorKind → Bool
is_kind_aborted aborted = true
is_kind_aborted _ = false

abbrev pub is_http : ApiRequestErrorKind → Bool
is_http http = true
is_http _ = false

abbrev pub has_status : ℕ → Option ℕ → Bool
has_status n none = false
has_status n (some status) = status == n

abbrev pub is_http_status : ℕ → ApiRequestError → Bool
is_http_status n e = is_auth_error e && is_http e.kind && has_status n e.status

unfoldable pub classify_demo_session_error : ApiRequestError → AuthActionOutcome
classify_demo_session_error e =
    if is_http_status 404 e then service_unavailable else classify_credential_error e

abbrev pub is_demo : TokenRequest → Bool
is_demo (login email password) = false
is_demo (register email password) = false
is_demo demo_session = true

abbrev pub classify_error : TokenRequest → ApiRequestError → AuthActionOutcome
classify_error (login email password) e = classify_credential_error e
classify_error (register email password) e = classify_credential_error e
classify_error demo_session e = classify_demo_session_error e

-- What the caller of a validation makes of its result.
abbrev pub answer_to : Caller → ValidationResult → Answer
answer_to nobody result = nothing
answer_to refreshing (valid user) = user_answer (some user)
answer_to refreshing _ = user_answer none
answer_to establishing (valid user) = outcome authenticated
answer_to establishing temporary = outcome session_unavailable
answer_to establishing superseded = outcome action_aborted
answer_to establishing invalid = outcome invalid_credentials
