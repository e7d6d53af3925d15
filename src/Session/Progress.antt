-- ===== src/Session/Progress.antt =====
-- The check of a session comes to an end: while it is shown, it is pending or under way.
use restaurant_ordering_anal.Base.{
  false, Option, none, some, JsString, ◌≡◌, refl, inl, inr, arith, throw, Outcome-cases,
}
use restaurant_ordering_anal.Js.{Number, Value}
use restaurant_ordering_anal.Api.Config.{Url}
use restaurant_ordering_anal.Api.Errors.{ApiRequestError}
use restaurant_ordering_anal.Api.Exchange.{World, Exchange, failure}
use restaurant_ordering_anal.Api.Authenticated.{
  authenticated_request, authenticated_request_json, settle_authenticated,
  validate_authenticated_path, create_bearer_headers, parsed_path, invalid_request, auth_me_path,
}
use restaurant_ordering_anal.Session.Users.{parse_auth_user, fetch_current_user}
use restaurant_ordering_anal.Session.Outcomes.{is_kind_aborted}
use restaurant_ordering_anal.Session.Steps.{with_signal}

parsed_path-invalid :
    (path : JsString) (o : Option Url) (e : ApiRequestError)
    → parsed_path path o ≡ throw e
    → e ≡ invalid_request
parsed_path-invalid path none e h = ground arith
parsed_path-invalid path (some url) e h = ground arith

validate-invalid :
    (parse_path : JsString → Option Url) (path : JsString) (e : ApiRequestError)
    → validate_authenticated_path parse_path path ≡ throw e
    → e ≡ invalid_request
unfolding validate_authenticated_path
validate-invalid parse_path path e h = ground (arith, parsed_path-invalid path (parse_path path) e)

-- What is wrong with a request before it is sent is not reported as an aborted one.
authenticated_request-invalid :
    (w : World) (parse_path : JsString → Option Url) (path token : JsString)
    (timeout_ms : Option Number) (e : ApiRequestError)
    → authenticated_request w parse_path path token timeout_ms ≡ throw e
    → is_kind_aborted e.kind ≡ false
unfolding authenticated_request create_bearer_headers
authenticated_request-invalid w parse_path path token timeout_ms e h =
    ground (arith, validate-invalid parse_path path e)

reply-unaborted :
    (x : Exchange) (e : ApiRequestError)
    → x.signal_aborted ≡ false
    → settle_authenticated x ≡ throw e
    → is_kind_aborted e.kind ≡ false
unfolding settle_authenticated failure
reply-unaborted x e a h = ground arith

parse_auth_user-unaborted :
    (v : Value) (e : ApiRequestError) → parse_auth_user v ≡ throw e → is_kind_aborted e.kind ≡ false
unfolding parse_auth_user
parse_auth_user-unaborted v e h = ground arith

-- The answer to a request whose signal is not aborted.
answer-unaborted :
    (w : World) (parse_path : JsString → Option Url) (token : JsString) (e : ApiRequestError)
    → (authenticated_request_json (with_signal false w) parse_path auth_me_path token none).1
      ≡ throw e
    → is_kind_aborted e.kind ≡ false
unfolding authenticated_request_json
answer-unaborted w parse_path token e h =
    elim (Outcome-cases
      (authenticated_request (with_signal false w) parse_path auth_me_path token none)) [
        | inl (x, unsent) ↦ ground (arith, authenticated_request-invalid _ _ _ _ _ x unsent)
        | inr (r, sent) ↦ ground (arith, reply-unaborted ((with_signal false w).fetch r) e refl)
      ]

-- A request for the user that is not aborted does not fail as an aborted one.
pub fetch_current_user-unaborted :
    (w : World) (parse_path : JsString → Option Url) (token : JsString) (e : ApiRequestError)
    → (fetch_current_user (with_signal false w) parse_path token).1 ≡ throw e
    → is_kind_aborted e.kind ≡ false
unfolding fetch_current_user
fetch_current_user-unaborted w parse_path token e h =
    elim (Outcome-cases
      (authenticated_request_json (with_signal false w) parse_path auth_me_path token none).1) [
        | inl (x, failed) ↦ ground (arith, answer-unaborted w parse_path token x failed)
        | inr (v, got) ↦ ground (arith, parse_auth_user-unaborted v e)
      ]
