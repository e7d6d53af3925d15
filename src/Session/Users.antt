-- ===== src/Session/Users.antt =====
-- frontend/src/features/auth/authApi.ts: tokens for credentials, and the current user.
use restaurant_ordering_anal.Base.{
  Bool, false, not, ◌&&◌, List, [], ◌∷◌, ◌++◌, Option, none, some, JsString, js, if◌then◌else◌,
  str_eq, Outcome, ok, throw, ◌>>=◌, ◌>>◌, replicate,
}
use restaurant_ordering_anal.Js.{
  Number, is_safe_integer, num_le, Value, boolean, string, object, field, end, get, as_string,
  as_number, is_string,
}
use restaurant_ordering_anal.Js.Pattern.{Class, matches, hex_lower, only, trim, is_empty}
use restaurant_ordering_anal.Auth.Navigation.{AuthRole, admin, customer, super_admin, includes}
use restaurant_ordering_anal.Auth.Tokens.{is_access_token}
use restaurant_ordering_anal.Api.Errors.{ApiRequestError, authenticated, invalid_response, http}
use restaurant_ordering_anal.Api.Config.{
  Url, guard_ok, build_api_url, resolve_api_request_timeout_ms,
}
use restaurant_ordering_anal.Api.Exchange.{
  Request, Reply, rejected, responded, Exchange, World, Sent, failure, is_success, body_or_failure,
}
use restaurant_ordering_anal.Api.Authenticated.{
  auth_me_path, parse_retry_after, authenticated_request_json,
}
use restaurant_ordering_anal.Orders.Fields.{require, exact_record, matching_string}
use restaurant_ordering_anal.Orders.Quote.{and_then}

-- `/^[0-9a-f]{8}-[0-9a-f]{4}-[0-9a-f]{4}-[0-9a-f]{4}-[0-9a-f]{12}$/`: lower case only.
unfoldable pub uuid_lower_pattern : List Class
uuid_lower_pattern =
    replicate 8 hex_lower
    ++ (only b'-' ∷ replicate 4 hex_lower
        ++ (only b'-' ∷ replicate 4 hex_lower
            ++ (only b'-' ∷ replicate 4 hex_lower ++ (only b'-' ∷ replicate 12 hex_lower))))

-- The user, of whom `isActive` is always true.
pub record AuthUser : Type 0 where
  pub email : JsString
  pub id : JsString
  pub role : AuthRole

pub record AuthTokenResponse : Type 0 where
  pub access_token : JsString
  pub expires_in : Number

abbrev pub invalid_auth_response : ApiRequestError
invalid_auth_response = record {
  origin = authenticated;
  kind = invalid_response;
  status = none;
  retry_after_seconds = none;
}

abbrev pub token_response_keys : List JsString
token_response_keys = js "access_token" ∷ js "expires_in" ∷ js "token_type" ∷ []

abbrev pub user_response_keys : List JsString
user_response_keys = js "email" ∷ js "id" ∷ js "is_active" ∷ js "role" ∷ []

unfoldable pub parse_auth_token_response : Value → Outcome ApiRequestError AuthTokenResponse
parse_auth_token_response value = do
  fields ← exact_record token_response_keys value invalid_auth_response
  token ← matching_string is_access_token (get (js "access_token") fields) invalid_auth_response
  guard_ok (is_string (js "bearer") (get (js "token_type") fields)) invalid_auth_response
  expires_in ← require (as_number (get (js "expires_in") fields)) invalid_auth_response
  guard_ok (is_safe_integer expires_in) invalid_auth_response
  guard_ok (not (num_le expires_in 0)) invalid_auth_response
  ok (record { access_token = token; expires_in = expires_in })

-- `isAuthRole`, with the role that the text stands for.
unfoldable pub read_auth_role : JsString → Option AuthRole
read_auth_role s =
    if str_eq s (js "customer")
    then some customer
    else if str_eq s (js "admin")
    then some admin
    else if str_eq s (js "super_admin")
    then some super_admin
    else none

abbrev pub is_email : JsString → Bool
is_email s = not (is_empty s) && str_eq (trim s) s && includes b'@' s

abbrev pub is_true : Value → Bool
is_true (boolean b) = b
is_true _ = false

unfoldable pub parse_auth_user : Value → Outcome ApiRequestError AuthUser
parse_auth_user value = do
  fields ← exact_record user_response_keys value invalid_auth_response
  id ← matching_string (matches uuid_lower_pattern) (get (js "id") fields) invalid_auth_response
  email ← matching_string is_email (get (js "email") fields) invalid_auth_response
  name ← require (as_string (get (js "role") fields)) invalid_auth_response
  role ← require (read_auth_role name) invalid_auth_response
  guard_ok (is_true (get (js "is_active") fields)) invalid_auth_response
  ok (record { email = email; id = id; role = role })

-- `loginUser`, `registerUser` and `startDemoSession`, by what they are called with.
pub data TokenRequest : Type 0 where
  login register : JsString → JsString → TokenRequest
  demo_session : TokenRequest

abbrev pub token_path : TokenRequest → JsString
token_path (login email password) = js "/api/v1/auth/login"
token_path (register email password) = js "/api/v1/auth/register"
token_path demo_session = js "/api/v1/auth/demo-session"

-- `toLowerCase` is the argument `lower`.
abbrev pub credentials : (JsString → JsString) → JsString → JsString → Value
credentials lower email password =
    object (
      field (js "email") (string (lower (trim email)))
        (field (js "password") (string password) end))

abbrev pub token_body : (JsString → JsString) → TokenRequest → Option Value
token_body lower (login email password) = some (credentials lower email password)
token_body lower (register email password) = some (credentials lower email password)
token_body lower demo_session = none

abbrev pub token_headers : Option Value → List (JsString × JsString)
token_headers none = (js "Accept", js "application/json") ∷ []
token_headers (some body) =
    (js "Accept", js "application/json") ∷ (js "Content-Type", js "application/json") ∷ []

abbrev pub token_reply : Exchange → Reply → Outcome ApiRequestError AuthTokenResponse
token_reply x rejected = throw (failure authenticated x false)
token_reply x (responded status retry_after body) =
    if is_success status
    then body_or_failure authenticated x body >>= parse_auth_token_response
    else throw (record {
      origin = authenticated;
      kind = http;
      status = some status;
      retry_after_seconds = parse_retry_after retry_after;
    })

unfoldable pub settle_auth_token : Exchange → Outcome ApiRequestError AuthTokenResponse
settle_auth_token x = token_reply x x.reply

module _ (w : World) where
  -- The URL is built inside the `try`, so that its error is an invalid response.
  abbrev pub send_token_request :
      Outcome ApiRequestError JsString → (JsString → Request) → Sent AuthTokenResponse
  send_token_request (throw e) request = ([], throw invalid_auth_response)
  send_token_request (ok url) request =
      (request url ∷ [], settle_auth_token (w.fetch (request url)))

  abbrev pub token_request_to : Option Value → JsString → Request
  token_request_to body url = record {
    method = js "POST";
    url = url;
    headers = token_headers body;
    body = body;
  }

  abbrev pub request_within :
      Outcome ApiRequestError Number → JsString → Option Value → Sent AuthTokenResponse
  request_within (throw e) path body = ([], throw e)
  request_within (ok timeout_ms) path body =
      send_token_request (build_api_url w.env w.parse_url path) (token_request_to body)

  unfoldable pub request_auth_token : (JsString → JsString) → TokenRequest → Sent AuthTokenResponse
  request_auth_token lower request =
      request_within (resolve_api_request_timeout_ms w.env none) (token_path request)
        (token_body lower request)

  unfoldable pub fetch_current_user : (JsString → Option Url) → JsString → Sent AuthUser
  fetch_current_user parse_path access_token =
      and_then (authenticated_request_json w parse_path auth_me_path access_token none)
        parse_auth_user
