-- ===== src/Session/Provider.antt =====
-- frontend/src/features/auth/AuthContext.tsx: the operations of `AuthProvider`. What happens between two
-- `await`s is one step. A `Call` is the provider after such a step, with what a promise that the step has
-- settled resolves to.
use restaurant_ordering_anal.Base.{
  ℕ, suc, Bool, true, false, ◌&&◌, ◌∷◌, Option, none, some, JsString, if◌then◌else◌, ◌==◌, str_eq,
  Outcome, ok, throw,
}
use restaurant_ordering_anal.Js.{Json}
use restaurant_ordering_anal.Auth.Tokens.{
  AuthState, save_auth_token, clear_auth_token, clear_legacy_auth_token,
}
use restaurant_ordering_anal.Auth.Markers.{save_demo_session_marker, clear_demo_session_marker}
use restaurant_ordering_anal.Api.Errors.{ApiRequestError}
use restaurant_ordering_anal.Session.Users.{AuthUser, AuthTokenResponse, TokenRequest}
use restaurant_ordering_anal.Session.Outcomes.{
  Answer, ValidationResult, action_aborted, answer_to, classify_error, invalid, is_auth_error,
  is_demo, is_http_status, is_kind_aborted, nothing, outcome, superseded, temporary, user_answer,
  valid,
}
use restaurant_ordering_anal.Session.State.{
  AuthPhase, signed_in, checking_session, temporarily_unavailable, TokenSource, canonical, legacy,
  Shown, Caller, nobody, refreshing, establishing, Job, requesting, validating, Task, Provider,
  nobody_shown, with_phase, abort_active,
}

module _ (json : Json) where
  open json use {Text}

  abbrev pub Call : Type 0
  Call = Provider Text × Answer

  abbrev pub show : Shown → Provider Text → Provider Text
  show view p = record p { shown = view }

  -- `beginRequest`, and the call that is made with the new controller.
  unfoldable pub begin_request : Job → Provider Text → Provider Text
  begin_request job p = record p {
    generation = suc p.generation;
    active_controller = some (suc p.generation);
    in_flight =
        record { generation = suc p.generation; aborted = false; job = job }
        ∷ abort_active p.active_controller p.in_flight;
  }

  -- `clearAuthToken(); clearDemoSessionMarker(); clearLegacyAuthToken();`
  abbrev pub forget_all : AuthState Text → AuthState Text
  forget_all s =
      (clear_legacy_auth_token json
        (clear_demo_session_marker json (clear_auth_token json s).0).0).0

  abbrev pub forget_legacy : AuthState Text → AuthState Text
  forget_legacy s = (clear_legacy_auth_token json (clear_demo_session_marker json s).0).0

  -- `saveDemoSessionMarker()` or `clearDemoSessionMarker()`.
  abbrev pub mark_demo : Bool → AuthState Text → AuthState Text
  mark_demo demo s =
      if demo then (save_demo_session_marker json s).0 else (clear_demo_session_marker json s).0

  unfoldable pub clear_session : Provider Text → Provider Text
  clear_session p = record p {
    generation = suc p.generation;
    session_generation = suc p.session_generation;
    in_flight = abort_active p.active_controller p.in_flight;
    active_controller = none;
    token = none;
    source = none;
    demo_session = false;
    storage = forget_all p.storage;
    shown = nobody_shown;
  }

  -- `validateToken` after its `await`: the user has come, or the request has failed.
  unfoldable pub accept_user : JsString → AuthUser → Provider Text → Provider Text
  accept_user token user p = record p {
    active_controller = none;
    token = some token;
    source = some canonical;
    storage =
        (clear_legacy_auth_token json
          (mark_demo p.demo_session (save_auth_token json token p.storage).0)).0;
    shown = with_phase token p.demo_session signed_in (some user);
  }

  abbrev pub forget_source : TokenSource → AuthState Text → AuthState Text
  forget_source canonical s = forget_all s
  forget_source legacy s = forget_legacy s

  unfoldable pub reject_token : TokenSource → Provider Text → Provider Text
  reject_token source p = record p {
    active_controller = none;
    token = none;
    source = none;
    demo_session = false;
    storage = forget_source source p.storage;
    shown = nobody_shown;
  }

  unfoldable pub suspend_session : JsString → TokenSource → Provider Text → Provider Text
  suspend_session token source p = record p {
    active_controller = none;
    token = some token;
    source = some source;
    shown = with_phase token p.demo_session temporarily_unavailable none;
  }

  unfoldable pub fail_validation :
      JsString → TokenSource → ApiRequestError → Provider Text → Provider Text × ValidationResult
  fail_validation token source e p =
      if is_auth_error e && is_kind_aborted e.kind
      then (record p { active_controller = none }, superseded)
      else if is_http_status 401 e
      then (reject_token source p, invalid)
      else (suspend_session token source p, temporary)

  abbrev pub settle_current_validation :
      JsString
      → TokenSource
      → Outcome ApiRequestError AuthUser
      → Provider Text
      → Provider Text × ValidationResult
  settle_current_validation token source (ok user) p = (accept_user token user p, valid user)
  settle_current_validation token source (throw e) p = fail_validation token source e p

  abbrev pub settle_validation :
      Bool
      → JsString
      → TokenSource
      → Outcome ApiRequestError AuthUser
      → Provider Text
      → Provider Text × ValidationResult
  settle_validation current token source reply p =
      if current then settle_current_validation token source reply p else (p, superseded)

  -- `establishCredentials` after its first `await`: the second one runs under the same controller.
  unfoldable pub accept_token :
      TokenRequest → Task → AuthTokenResponse → Provider Text → Provider Text
  accept_token request t response p = record p {
    token = some response.access_token;
    source = some canonical;
    demo_session = is_demo request;
    session_generation = suc p.session_generation;
    storage = mark_demo (is_demo request) (save_auth_token json response.access_token p.storage).0;
    shown = with_phase response.access_token (is_demo request) checking_session none;
    in_flight =
        record t { job = validating response.access_token canonical establishing } ∷ p.in_flight;
  }

  abbrev pub settle_current_request :
      TokenRequest → Task → Outcome ApiRequestError AuthTokenResponse → Provider Text → Call
  settle_current_request request t (ok response) p = (accept_token request t response p, nothing)
  settle_current_request request t (throw e) p =
      (record p { active_controller = none }, outcome (classify_error request e))

  abbrev pub settle_request :
      Bool → TokenRequest → Task → Outcome ApiRequestError AuthTokenResponse → Provider Text → Call
  settle_request current request t reply p =
      if current then settle_current_request request t reply p else (p, outcome action_aborted)

  -- `validateCurrentSession`.
  abbrev pub validate_token_of :
      Caller → Option JsString → Option TokenSource → Provider Text → Call
  validate_token_of caller (some token) (some source) p =
      (begin_request (validating token source caller) p, nothing)
  validate_token_of caller _ _ p = (show nobody_shown p, answer_to caller invalid)

  unfoldable pub validate_current_session : Caller → Provider Text → Call
  validate_current_session caller p = validate_token_of caller p.token p.source p

  unfoldable pub establish_credentials : TokenRequest → Provider Text → Call
  establish_credentials request p = (begin_request (requesting request) p, nothing)

  abbrev pub retry_token_of : Option JsString → Option TokenSource → Provider Text → Call
  retry_token_of (some token) (some source) p =
      validate_current_session nobody
        (show (with_phase token p.demo_session checking_session none) p)
  retry_token_of _ _ p = (show nobody_shown p, nothing)

  unfoldable pub retry_session : Provider Text → Call
  retry_session p = retry_token_of p.token p.source p

  abbrev pub refresh_token_of : Option JsString → Option TokenSource → Provider Text → Call
  refresh_token_of (some token) (some source) p = validate_current_session refreshing p
  refresh_token_of _ _ p = (clear_session p, user_answer none)

  unfoldable pub refresh_current_user : Provider Text → Call
  refresh_current_user p = refresh_token_of p.token p.source p

  -- `tokenRef.current === token`.
  abbrev pub is_token : Option JsString → JsString → Bool
  is_token none token = false
  is_token (some t) token = str_eq t token

  unfoldable pub invalidate_session_if_current : JsString → ℕ → Provider Text → Provider Text
  invalidate_session_if_current token generation p =
      if is_token p.token token && p.session_generation == generation then clear_session p else p

  abbrev pub session_of : AuthPhase → Option JsString → ℕ → Option (JsString × ℕ)
  session_of signed_in (some token) generation = some (token, generation)
  session_of _ _ generation = none

  -- `getAuthenticatedSession`, made in a render that showed `phase`.
  unfoldable pub get_authenticated_session : AuthPhase → Provider Text → Option (JsString × ℕ)
  get_authenticated_session phase p = session_of phase p.token p.session_generation

  -- The effect, and its cleanup.
  unfoldable pub start_effect : Provider Text → Provider Text
  start_effect p = record p { validation_start = has_token p.initial_token }
    where
      has_token : Option JsString → Bool
      has_token none = false
      has_token (some t) = true

  unfoldable pub clean_up : Provider Text → Provider Text
  clean_up p = record p {
    validation_start = false;
    generation = suc p.generation;
    in_flight = abort_active p.active_controller p.in_flight;
    active_controller = none;
  }

  unfoldable pub start_validation : Provider Text → Call
  start_validation p =
      if p.validation_start
      then validate_current_session nobody (record p { validation_start = false })
      else (p, nothing)
