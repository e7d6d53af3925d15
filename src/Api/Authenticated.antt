-- ===== src/Api/Authenticated.antt =====
-- frontend/src/api/authenticatedApi.ts
use restaurant_ordering_anal.Base.{
  ℕ, Bool, true, false, not, ◌&&◌, ◌||◌, List, [], ◌∷◌, ◌++◌, Option, none, some, JsString, js,
  if◌then◌else◌, leb, ltb, str_eq, all, any, Outcome, ok, throw, ◌>>=◌, ◌>>◌,
}
use restaurant_ordering_anal.Js.{Number, Value, max_safe_integer}
use restaurant_ordering_anal.Js.Pattern.{
  digit, trim, is_empty, is_space, split_on, strip_prefix, matches, order_number_pattern,
}
use restaurant_ordering_anal.Auth.Navigation.{starts_with, includes, is_control}
use restaurant_ordering_anal.Api.Errors.{
  authenticated, invalid_response, http, ApiRequestError, header_type_error,
}
use restaurant_ordering_anal.Api.Config.{
  Url, build_api_url, resolve_api_request_timeout_ms, guard_ok, decimal,
}
use restaurant_ordering_anal.Api.Exchange.{
  Request, Reply, rejected, responded, Exchange, World, Sent, failure, is_success, body_or_failure,
  is_header_value,
}

abbrev pub auth_me_path : JsString
auth_me_path = js "/api/v1/auth/me"

abbrev pub account_orders_path : JsString
account_orders_path = js "/api/v1/account/orders"

abbrev pub path_validation_origin : JsString
path_validation_origin = js "http://authenticated-api.local"

abbrev pub invalid_request : ApiRequestError
invalid_request = record {
  origin = authenticated;
  kind = invalid_response;
  status = none;
  retry_after_seconds = none;
}

-- The keys of a query.
pub data QueryKey : Type 0 where
  limit offset : QueryKey

abbrev same_key : QueryKey → QueryKey → Bool
same_key limit limit = true
same_key offset offset = true
same_key _ _ = false

abbrev pub has_key : QueryKey → List QueryKey → Bool
has_key key [] = false
has_key key (seen ∷ keys) = same_key seen key || has_key key keys

abbrev pub is_numeral : JsString → Bool
is_numeral s = not (is_empty s) && all digit s

abbrev keyed : QueryKey → Option JsString → Option (QueryKey × JsString)
keyed key none = none
keyed key (some value) = if is_numeral value then some (key, value) else none

abbrev first_of_two :
    Option (QueryKey × JsString) → Option (QueryKey × JsString) → Option (QueryKey × JsString)
first_of_two none second = second
first_of_two (some found) second = some found

-- `/^(limit|offset)=(\d+)$/.exec(segment)`.
unfoldable pub match_segment : JsString → Option (QueryKey × JsString)
match_segment segment =
    first_of_two (keyed limit (strip_prefix (js "limit=") segment))
      (keyed offset (strip_prefix (js "offset=") segment))

abbrev pub is_value_of : QueryKey → ℕ → Bool
is_value_of limit value = not (ltb value 1 || ltb 100 value)
is_value_of offset value = true

abbrev pub accept_segment :
    List QueryKey → Option (QueryKey × JsString) → (List QueryKey → Bool) → Bool
accept_segment seen none rest = false
accept_segment seen (some (key, value)) rest =
    not (has_key key seen)
    && leb (decimal value) max_safe_integer
    && is_value_of key (decimal value)
    && rest (key ∷ seen)

-- The loop over the segments; each one adds a new key, so that there are as many keys as segments.
unfoldable pub are_segments : List QueryKey → List JsString → Bool
are_segments seen [] = true
are_segments seen (segment ∷ segments) =
    accept_segment seen (match_segment segment) (λ keys. are_segments keys segments)

abbrev pub query_allowed : Option JsString → Url → Bool
query_allowed none parsed = false
query_allowed (some query) parsed =
    str_eq parsed.pathname account_orders_path && are_segments [] (split_on b'&' query)

abbrev pub detail_allowed : Option JsString → Bool
detail_allowed none = false
detail_allowed (some number) = matches order_number_pattern number

unfoldable pub is_allowed_account_orders_path : JsString → Url → Bool
is_allowed_account_orders_path path parsed =
    str_eq path account_orders_path
    || detail_allowed (strip_prefix (js "/api/v1/account/orders/") path)
    || query_allowed (strip_prefix (js "/api/v1/account/orders?") path) parsed

abbrev pub is_allowed_path : JsString → Url → Bool
is_allowed_path path parsed =
    str_eq path auth_me_path || (is_empty parsed.hash && is_allowed_account_orders_path path parsed)

abbrev pub parsed_path : JsString → Option Url → Outcome ApiRequestError (Unit {0})
parsed_path path none = throw invalid_request
parsed_path path (some parsed) =
    guard_ok
      (str_eq parsed.origin path_validation_origin
        && is_empty parsed.hash
        && is_allowed_path path parsed)
      invalid_request

-- `new URL(path, PATH_VALIDATION_ORIGIN)` is the argument `parse_path`.
unfoldable pub validate_authenticated_path :
    (JsString → Option Url) → JsString → Outcome ApiRequestError (Unit {0})
validate_authenticated_path parse_path path = do
  guard_ok
      (not (
        is_empty path
        || not (starts_with (js "/") path)
        || starts_with (js "//") path
        || includes b'\\' path
        || includes b'%' path
        || any is_control path))
      invalid_request
  parsed_path path (parse_path path)

abbrev positive_seconds : ℕ → Option ℕ
positive_seconds seconds =
    if leb seconds max_safe_integer && ltb 0 seconds then some seconds else none

unfoldable pub parse_retry_after : Option JsString → Option ℕ
parse_retry_after none = none
parse_retry_after (some value) = if is_numeral value then positive_seconds (decimal value) else none

unfoldable pub create_bearer_headers :
    JsString → Outcome ApiRequestError (List (JsString × JsString))
create_bearer_headers access_token =
    if is_empty (trim access_token) || any is_space access_token
    then throw invalid_request
    else if is_header_value (js "Bearer " ++ access_token)
    then ok (
        (js "Accept", js "application/json")
        ∷ (js "Authorization", js "Bearer " ++ access_token)
        ∷ [])
    else throw header_type_error

abbrev authenticated_reply : Exchange → Reply → Outcome ApiRequestError Value
authenticated_reply x rejected = throw (failure authenticated x false)
authenticated_reply x (responded status retry_after body) =
    if is_success status
    then body_or_failure authenticated x body
    else throw (record {
      origin = authenticated;
      kind = http;
      status = some status;
      retry_after_seconds = parse_retry_after retry_after;
    })

unfoldable pub settle_authenticated : Exchange → Outcome ApiRequestError Value
settle_authenticated x = authenticated_reply x x.reply

abbrev pub or_invalid_request : {A : Type 0} → Outcome ApiRequestError A → Outcome ApiRequestError A
or_invalid_request (ok a) = ok a
or_invalid_request (throw e) = throw invalid_request

module _ (w : World) (parse_path : JsString → Option Url) where
  -- The request that the checks lead to, before it is sent.
  unfoldable pub authenticated_request :
      JsString → JsString → Option Number → Outcome ApiRequestError Request
  authenticated_request path access_token timeout_ms = do
    validate_authenticated_path parse_path path
    headers ← create_bearer_headers access_token
    _ ← or_invalid_request (resolve_api_request_timeout_ms w.env timeout_ms)
    url ← or_invalid_request (build_api_url w.env w.parse_url path)
    ok (record { method = js "GET"; url = url; headers = headers; body = none })

  abbrev sent : Outcome ApiRequestError Request → Sent Value
  sent (throw e) = ([], throw e)
  sent (ok request) = (request ∷ [], settle_authenticated (w.fetch request))

  unfoldable pub authenticated_request_json : JsString → JsString → Option Number → Sent Value
  authenticated_request_json path access_token timeout_ms =
      sent (authenticated_request path access_token timeout_ms)
