-- ===== src/Admin/Client.antt =====
-- frontend/src/api/adminApi.ts, but for its binary answers.
use restaurant_ordering_anal.Base.{
  ℕ, Bool, ◌==◌, ◌||◌, false, ◌&&◌, List, [], ◌∷◌, ◌++◌, Option, none, some, JsString, js,
  if◌then◌else◌, str_eq, Outcome, ok, throw, ◌>>=◌,
}
use restaurant_ordering_anal.Js.{Number, Value}
use restaurant_ordering_anal.Js.Pattern.{trim, is_empty}
use restaurant_ordering_anal.Auth.Navigation.{starts_with}
use restaurant_ordering_anal.Api.Errors.{
  ApiRequestError, header_type_error, administration, http, network, invalid_response,
}
use restaurant_ordering_anal.Api.Config.{
  Url, guard_ok, build_api_url, resolve_api_request_timeout_ms,
}
use restaurant_ordering_anal.Api.Exchange.{
  Request, Reply, rejected, responded, Exchange, World, Sent, failure, is_success, body_or_failure,
  is_header_value,
}
use restaurant_ordering_anal.Api.Authenticated.{parse_retry_after}

abbrev pub admin_path_prefix : JsString
admin_path_prefix = js "/api/v1/admin/"

abbrev pub admin_path_validation_origin : JsString
admin_path_validation_origin = js "http://admin-api.local"

pub data AdminHttpMethod : Type 0 where
  get_method patch_method post_method : AdminHttpMethod

abbrev pub method_name : AdminHttpMethod → JsString
method_name get_method = js "GET"
method_name patch_method = js "PATCH"
method_name post_method = js "POST"

abbrev pub invalid_admin_request : ApiRequestError
invalid_admin_request = record {
  origin = administration;
  kind = invalid_response;
  status = none;
  retry_after_seconds = none;
}

abbrev pub admin_path_parsed : JsString → Option Url → Outcome ApiRequestError (Unit {0})
admin_path_parsed path none = throw invalid_admin_request
admin_path_parsed path (some parsed) =
    guard_ok
      (starts_with (js "/") path
        && str_eq parsed.origin admin_path_validation_origin
        && is_empty parsed.hash
        && starts_with admin_path_prefix parsed.pathname)
      invalid_admin_request

-- `new URL(path, ADMIN_PATH_VALIDATION_ORIGIN)` is the argument `parse_path`.
unfoldable pub validate_admin_path :
    (JsString → Option Url) → JsString → Outcome ApiRequestError (Unit {0})
validate_admin_path parse_path path = admin_path_parsed path (parse_path path)

abbrev is_http_space : ℕ → Bool
is_http_space c = c == 9 || c == 10 || c == 13 || c == 32

abbrev keep_unless_http_space : ℕ → JsString → JsString
keep_unless_http_space c [] = if is_http_space c then [] else c ∷ []
keep_unless_http_space c (d ∷ s) = c ∷ d ∷ s

-- `headers.set` leaves out the white space at the end of a value; at the front there is none here.
unfoldable pub header_value : JsString → JsString
header_value [] = []
header_value (c ∷ s) = keep_unless_http_space c (header_value s)

abbrev set_bearer : JsString → JsString → Outcome ApiRequestError (List (JsString × JsString))
set_bearer accept value =
    if is_header_value value
    then ok ((js "Accept", accept) ∷ (js "Authorization", value) ∷ [])
    else throw header_type_error

-- The header `Content-Type` is set after the two others.
unfoldable pub create_admin_headers :
    Option JsString → JsString → Outcome ApiRequestError (List (JsString × JsString))
create_admin_headers none accept = ok ((js "Accept", accept) ∷ [])
create_admin_headers (some access_token) accept =
    if is_empty (trim access_token)
    then throw invalid_admin_request
    else set_bearer accept (header_value (js "Bearer " ++ access_token))

abbrev pub with_content_type :
    Option Value → List (JsString × JsString) → List (JsString × JsString)
with_content_type none headers = headers
with_content_type (some body) headers = headers ++ ((js "Content-Type", js "application/json") ∷ [])

abbrev pub admin_reply : Exchange → Reply → Outcome ApiRequestError Value
admin_reply x rejected = throw (failure administration x false)
admin_reply x (responded status retry_after body) =
    if is_success status
    then body_or_failure administration x body
    else throw (record {
      origin = administration;
      kind = http;
      status = some status;
      retry_after_seconds = parse_retry_after retry_after;
    })

unfoldable pub settle_admin : Exchange → Outcome ApiRequestError Value
settle_admin x = admin_reply x x.reply

module _ (w : World) (parse_path : JsString → Option Url) where
  -- The URL is built inside the `try`: its error is none of the client's, and no response has come, so
  -- that it is reported as one of the network (a signal that is not aborted yet is assumed there).
  abbrev pub send_admin : Outcome ApiRequestError JsString → (JsString → Request) → Sent Value
  send_admin (throw e) request = (
    [],
    throw (record {
      origin = administration;
      kind = network;
      status = none;
      retry_after_seconds = none;
    }),
  )
  send_admin (ok url) request = (request url ∷ [], settle_admin (w.fetch (request url)))

  abbrev pub execute_admin_request :
      JsString
      → AdminHttpMethod
      → List (JsString × JsString)
      → Option Value
      → Outcome ApiRequestError (Unit {0})
      → Sent Value
  execute_admin_request path method headers body (throw e) = ([], throw e)
  execute_admin_request path method headers body (ok passed) =
      send_admin (build_api_url w.env w.parse_url path)
        (λ url. record { method = method_name method; url = url; headers = headers; body = body })

  -- The headers, then the timeout (whose error is the plain client's), then the path.
  abbrev pub checked_headers :
      Option JsString
      → Option Number
      → Option Value
      → Outcome ApiRequestError (List (JsString × JsString))
  checked_headers access_token timeout_ms body = do
    headers ← create_admin_headers access_token (js "application/json")
    _ ← resolve_api_request_timeout_ms w.env timeout_ms
    ok (with_content_type body headers)

  abbrev pub admin_request_with :
      JsString
      → AdminHttpMethod
      → Option Value
      → Outcome ApiRequestError (List (JsString × JsString))
      → Sent Value
  admin_request_with path method body (throw e) = ([], throw e)
  admin_request_with path method body (ok headers) =
      execute_admin_request path method headers body (validate_admin_path parse_path path)

  unfoldable pub admin_request_json :
      JsString → AdminHttpMethod → Option JsString → Option Value → Option Number → Sent Value
  admin_request_json path method access_token body timeout_ms =
      admin_request_with path method body (checked_headers access_token timeout_ms body)
