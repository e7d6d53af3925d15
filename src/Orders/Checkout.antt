-- ===== src/Orders/Checkout.antt =====
-- frontend/src/api/customerApi.ts: the checkout session.
use mathlib.Core.List.{map}
use restaurant_ordering_anal.Base.{
  ℕ, ◌+◌, Bool, true, false, not, ◌&&◌, ◌||◌, List, [], ◌∷◌, ◌++◌, Option, none, some, JsString, js,
  if◌then◌else◌, str_eq, one_of, leb, ◌==◌, Outcome, ok, throw, ◌>>=◌, ◌>>◌,
}
use restaurant_ordering_anal.Js.{Value, null, get, as_string, max_safe_integer}
use restaurant_ordering_anal.Js.Pattern.{
  Class, matches, digit, only, between, is_empty, order_number_pattern, uuid_v4_pattern,
}
use restaurant_ordering_anal.Api.Errors.{ApiRequestError, checkout, http}
use restaurant_ordering_anal.Api.Config.{
  Url, guard_ok, decimal, is_positive_numeral, resolve_api_request_timeout_ms,
}
use restaurant_ordering_anal.Api.Exchange.{
  Reply, rejected, responded, Exchange, World, Sent, failure, is_success, body_or_failure,
  append_optional_credentials, send_within,
}
use restaurant_ordering_anal.Orders.Fields.{
  invalid_checkout_response, require, exact_record, matching_string,
}
use restaurant_ordering_anal.Orders.Quote.{after_check}

abbrev pub checkout_response_keys : List JsString
checkout_response_keys =
    js "checkout_url" ∷ js "expires_at" ∷ js "payment_status" ∷ js "public_order_number" ∷ []

-- `toLowerCase` on ASCII letters: no other letter has an image in the host names compared with.
abbrev pub to_lower : ℕ → ℕ
to_lower c = if between b'A' b'Z' c then c + 32 else c

abbrev pub local_hosts : List JsString
local_hosts = js "localhost" ∷ js "127.0.0.1" ∷ js "[::1]" ∷ js "::1" ∷ []

abbrev is_safe_url : Option Url → Bool
is_safe_url none = false
is_safe_url (some parsed) =
    is_empty parsed.username
    && is_empty parsed.password
    && (str_eq parsed.protocol (js "https:")
        || (str_eq parsed.protocol (js "http:")
            && one_of local_hosts (map to_lower parsed.hostname)))

-- `isSafeCheckoutUrl`, of a value known to be a string.
unfoldable pub is_safe_checkout_url : (JsString → Option Url) → JsString → Bool
is_safe_checkout_url parse_url value = is_safe_url (parse_url value)

abbrev sign : Class
sign c = c == b'+' || c == b'-'

abbrev offset_pattern : List Class
offset_pattern = sign ∷ digit ∷ digit ∷ only b':' ∷ digit ∷ digit ∷ []

-- `/(?:Z|[+-][0-9]{2}:[0-9]{2})$/.test(value)`: some end of the text matches.
unfoldable pub ends_aware : JsString → Bool
ends_aware [] = false
ends_aware (c ∷ s) =
    matches (only b'Z' ∷ []) (c ∷ s) || matches offset_pattern (c ∷ s) || ends_aware s

-- `isAwareDatetime`; whether `Date.parse` gives a finite number is the argument `is_date`.
unfoldable pub is_aware_datetime : (JsString → Bool) → JsString → Bool
is_aware_datetime is_date value = ends_aware value && is_date value

pub data FinalStatus : Type 0 where
  expired failed succeeded : FinalStatus

pub data CheckoutSessionResponse : Type 0 where
  pending : JsString → JsString → JsString → CheckoutSessionResponse
  settled : FinalStatus → JsString → CheckoutSessionResponse

abbrev read_final : JsString → Option FinalStatus
read_final s =
    if str_eq s (js "expired")
    then some expired
    else if str_eq s (js "failed")
    then some failed
    else if str_eq s (js "succeeded")
    then some succeeded
    else none

abbrev is_null : Value → Bool
is_null null = true
is_null _ = false

module _ (parse_url : JsString → Option Url) (is_date : JsString → Bool) where
  parse_pending : JsString → Value → Value → Outcome ApiRequestError CheckoutSessionResponse
  parse_pending order_number checkout_url expires_at = do
    url ← matching_string (is_safe_checkout_url parse_url) checkout_url invalid_checkout_response
    expiry ← matching_string (is_aware_datetime is_date) expires_at invalid_checkout_response
    ok (pending url expiry order_number)

  parse_settled :
      JsString → JsString → Value → Value → Outcome ApiRequestError CheckoutSessionResponse
  parse_settled status order_number checkout_url expires_at = do
    final ← require (read_final status) invalid_checkout_response
    guard_ok (is_null checkout_url) invalid_checkout_response
    guard_ok (is_null expires_at) invalid_checkout_response
    ok (settled final order_number)

  unfoldable pub parse_checkout_session_response :
      JsString → Value → Outcome ApiRequestError CheckoutSessionResponse
  unfolding parse_pending parse_settled
  parse_checkout_session_response expected value = do
    fields ← exact_record checkout_response_keys value invalid_checkout_response
    order_number ←
        require (as_string (get (js "public_order_number") fields)) invalid_checkout_response
    guard_ok (str_eq order_number expected) invalid_checkout_response
    status ← require (as_string (get (js "payment_status") fields)) invalid_checkout_response
    if str_eq status (js "pending")
        then parse_pending order_number (get (js "checkout_url") fields)
            (get (js "expires_at") fields)
        else parse_settled status order_number (get (js "checkout_url") fields)
            (get (js "expires_at") fields)

abbrev safe_seconds : ℕ → Option ℕ
safe_seconds seconds = if leb seconds max_safe_integer then some seconds else none

unfoldable pub parse_positive_retry_after : Option JsString → Option ℕ
parse_positive_retry_after none = none
parse_positive_retry_after (some value) =
    if is_positive_numeral value then safe_seconds (decimal value) else none

abbrev checkout_http_error : ℕ → Option JsString → ApiRequestError
checkout_http_error status retry_after = record {
  origin = checkout;
  kind = http;
  status = some status;
  retry_after_seconds = if status == 429 then parse_positive_retry_after retry_after else none;
}

abbrev has_either : Option JsString → Option JsString → Bool
has_either none none = false
has_either _ _ = true

unfoldable pub checkout_headers :
    JsString
    → JsString
    → Option JsString
    → Option JsString
    → Outcome ApiRequestError (List (JsString × JsString))
checkout_headers order_number idempotency_key access_token guest_access_token = do
  guard_ok (matches order_number_pattern order_number && matches uuid_v4_pattern idempotency_key)
      invalid_checkout_response
  headers ←
      append_optional_credentials ((js "Idempotency-Key", idempotency_key) ∷ []) access_token
        guest_access_token invalid_checkout_response
  guard_ok (has_either access_token guest_access_token) invalid_checkout_response
  ok headers

-- `encodeURIComponent` changes no character of a well-formed order number.
abbrev pub checkout_path : JsString → JsString
checkout_path order_number = js "/api/v1/orders/" ++ (order_number ++ js "/checkout-session")

module _ (w : World) (is_date : JsString → Bool) where
  abbrev pub checkout_reply :
      JsString → Exchange → Reply → Outcome ApiRequestError CheckoutSessionResponse
  checkout_reply order_number x rejected = throw (failure checkout x false)
  checkout_reply order_number x (responded status retry_after body) =
      if not (is_success status)
      then throw (checkout_http_error status retry_after)
      else if not (status == 200 || status == 201)
      then throw invalid_checkout_response
      else body_or_failure checkout x body
        >>= parse_checkout_session_response w.parse_url is_date order_number

  unfoldable pub settle_checkout :
      JsString → Exchange → Outcome ApiRequestError CheckoutSessionResponse
  settle_checkout order_number x = checkout_reply order_number x x.reply

  unfoldable pub create_checkout_session :
      JsString → JsString → Option JsString → Option JsString → Sent CheckoutSessionResponse
  create_checkout_session order_number idempotency_key access_token guest_access_token =
      after_check (checkout_headers order_number idempotency_key access_token guest_access_token)
        λ headers.
          send_within w (resolve_api_request_timeout_ms w.env none) (checkout_path order_number)
            (λ url. record { method = js "POST"; url = url; headers = headers; body = none })
            (settle_checkout order_number)
