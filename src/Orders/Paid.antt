-- ===== src/Orders/Paid.antt =====
-- What a checkout session and an order's status promise.
use restaurant_ordering_anal.Base.{
  ◌≡◌, Bool, true, List, [], ◌∷◌, ◌++◌, Option, none, some, JsString, js, ok, arith, str_eq_sound,
  inl, inr, ◌⊎◌, ◌≢◌, Option-cases, one_of, map, Outcome-cases,
}
use restaurant_ordering_anal.Js.{Value, object, get}
use restaurant_ordering_anal.Js.Pattern.{
  matches, currency_pattern, order_number_pattern, uuid_v4_pattern, is_empty,
}
use restaurant_ordering_anal.Api.Config.{Url, build_api_url, resolve_api_request_timeout_ms}
use restaurant_ordering_anal.Api.Exchange.{
  Exchange, Reply, rejected, responded, World, append_optional_credentials,
}
use restaurant_ordering_anal.Orders.Fields.{invalid_contract}
use restaurant_ordering_anal.Orders.Order.{is_not_blank}
use restaurant_ordering_anal.Orders.Checkout.{
  CheckoutSessionResponse, pending, settled, parse_checkout_session_response, checkout_headers,
  checkout_path, create_checkout_session, is_safe_checkout_url, is_aware_datetime, settle_checkout,
  ends_aware, checkout_reply, local_hosts, to_lower,
}
use restaurant_ordering_anal.Orders.Status.{OrderStatusResponse, parse_order_status_response}
use restaurant_ordering_anal.Orders.Lines.{
  IsAmount, AreLines, parse_lines_sound, parse_positive_amount_sound,
}
use restaurant_ordering_anal.Orders.Created.{IsTable, parse_table_number_sound}
use restaurant_ordering_anal.Orders.Quoted.{send_within_ok}

-- A page that a customer may be sent to: over `https:`, or over `http:` on this machine.
abbrev pub IsSafeUrl : Url → Type 0
IsSafeUrl url =
    (url.protocol ≡ js "https:")
    ⊎ ((url.protocol ≡ js "http:") × (one_of local_hosts (map to_lower url.hostname) ≡ true))

is_safe_checkout_url_sound :
    (parse_url : JsString → Option Url) (s : JsString)
    → is_safe_checkout_url parse_url s ≡ true
    → (url : Url) × (parse_url s ≡ some url)
      × (is_empty url.username ≡ true)
      × (is_empty url.password ≡ true)
      × IsSafeUrl url
unfolding is_safe_checkout_url
is_safe_checkout_url_sound parse_url s h = elim (Option-cases (parse_url s)) [
  | inl e ↦ absurd (ground arith)
  | inr (url, e) ↦ (
    url,
    e,
    ground arith,
    ground arith,
    ground (arith, str_eq_sound url.protocol (js "https:"), str_eq_sound url.protocol (js "http:")),
  )
]

module _ (parse_url : JsString → Option Url) (is_date : JsString → Bool) where
  -- A session that is pending leads to a page that a customer may be sent to, until a time with a zone;
  -- one that is settled leads nowhere.
  abbrev pub IsSession : JsString → CheckoutSessionResponse → Type 0
  IsSession order_number (pending url expiry n) =
      (n ≡ order_number)
      × (ends_aware expiry ≡ true)
      × (is_date expiry ≡ true)
      × ((parsed : Url) × (parse_url url ≡ some parsed)
          × (is_empty parsed.username ≡ true)
          × (is_empty parsed.password ≡ true)
          × IsSafeUrl parsed)
  IsSession order_number (settled status n) = n ≡ order_number

  -- An accepted session is one of the order asked for.
  pub parse_checkout_session_response_sound :
      (order_number : JsString) (v : Value) (session : CheckoutSessionResponse)
      → parse_checkout_session_response parse_url is_date order_number v ≡ ok session
      → IsSession order_number session
  unfolding parse_checkout_session_response is_aware_datetime
  parse_checkout_session_response_sound order_number v (settled status n) h =
      str_eq_sound n order_number (ground arith)
  parse_checkout_session_response_sound order_number v (pending url expiry n) h = (
    str_eq_sound n order_number (ground arith),
    ground arith,
    ground arith,
    is_safe_checkout_url_sound parse_url url (ground arith),
  )

abbrev credential : JsString → JsString → Option JsString → List (JsString × JsString)
credential name prefix none = []
credential name prefix (some token) = (name, prefix ++ token) ∷ []

-- The headers of a checkout: the idempotency key first.
abbrev pub checkout_headers_of :
    JsString → Option JsString → Option JsString → List (JsString × JsString)
checkout_headers_of key access guest =
    (js "Idempotency-Key", key) ∷ credential (js "Authorization") (js "Bearer ") access
    ++ credential (js "X-Order-Access-Token") [] guest

module _ (w : World) (is_date : JsString → Bool) where
  checkout_headers_sound :
      (order_number key : JsString) (access guest : Option JsString)
      (headers : List (JsString × JsString))
      → checkout_headers order_number key access guest ≡ ok headers
      → (matches order_number_pattern order_number ≡ true)
        × (matches uuid_v4_pattern key ≡ true)
        × ((access ≢ none) ⊎ (guest ≢ none))
        × (headers ≡ checkout_headers_of key access guest)
  unfolding checkout_headers append_optional_credentials
  checkout_headers_sound order_number key access guest headers h =
      (ground arith, ground arith, ground arith, ground arith)

  checkout_reply_value :
      (order_number : JsString) (x : Exchange) (reply : Reply) (session : CheckoutSessionResponse)
      → checkout_reply w is_date order_number x reply ≡ ok session
      → (v : Value) × (parse_checkout_session_response w.parse_url is_date order_number v
          ≡ ok session)
  checkout_reply_value order_number x rejected session h = absurd (cc)
  checkout_reply_value order_number x (responded status after none) session h =
      absurd (ground arith)
  checkout_reply_value order_number x (responded status after (some v)) session h =
      (v, ground arith)

  settle_checkout_sound :
      (order_number : JsString) (x : Exchange) (session : CheckoutSessionResponse)
      → settle_checkout w is_date order_number x ≡ ok session
      → IsSession w.parse_url is_date order_number session
  unfolding settle_checkout
  settle_checkout_sound order_number x session h =
      let (v, parsed) = checkout_reply_value order_number x x.reply session h in
      parse_checkout_session_response_sound w.parse_url is_date order_number v session parsed

  -- A checkout session was opened by one POST, with a canonical idempotency key and at least one
  -- credential, for a well-formed order number, and is a session of that order.
  pub create_checkout_session_sound :
      (order_number key : JsString) (access guest : Option JsString)
      (session : CheckoutSessionResponse)
      → (create_checkout_session w is_date order_number key access guest).1 ≡ ok session
      → (matches order_number_pattern order_number ≡ true)
        × (matches uuid_v4_pattern key ≡ true)
        × ((access ≢ none) ⊎ (guest ≢ none))
        × IsSession w.parse_url is_date order_number session
        × ((url : JsString) × (build_api_url w.env w.parse_url (checkout_path order_number)
              ≡ ok url)
            × ((create_checkout_session w is_date order_number key access guest).0
                ≡ record {
                  method = js "POST";
                  url = url;
                  headers = checkout_headers_of key access guest;
                  body = none;
                }
                  ∷ []))
  unfolding create_checkout_session
  create_checkout_session_sound order_number key access guest session h =
      elim (Outcome-cases (checkout_headers order_number key access guest)) [
        | inl (e, refused) ↦ absurd (ground arith)
        | inr (headers, checked) ↦
            let (well_formed, canonical, credited, same) =
              checkout_headers_sound order_number key access guest headers checked in
            let (url, target, log, answered) =
              send_within_ok w (resolve_api_request_timeout_ms w.env none)
                (checkout_path order_number) _ (settle_checkout w is_date order_number) session
                (rw checked at h) in
            (
              well_formed,
              canonical,
              credited,
              settle_checkout_sound order_number _ session answered,
              (url, target, rw (checked, ← same) log),
            )
      ]

pub record IsSnapshot (is_date : JsString → Bool) (expected : JsString)
    (order : OrderStatusResponse) : Type 0 where
  pub same_order : order.public_order_number ≡ expected
  pub currency : matches currency_pattern order.currency ≡ true
  pub items : AreLines is_not_blank order.items
  pub subtotal : IsAmount order.subtotal_amount
  pub total : IsAmount order.total_amount
  pub table : IsTable order.order_type order.table_number
  pub created : is_aware_datetime is_date order.created_at ≡ true
  pub updated : is_aware_datetime is_date order.updated_at ≡ true

-- An accepted snapshot is one of the order asked for, and well formed in every field.
pub parse_order_status_response_sound :
    (is_date : JsString → Bool) (expected : JsString) (v : Value) (order : OrderStatusResponse)
    → parse_order_status_response is_date expected v ≡ ok order
    → IsSnapshot is_date expected order
unfolding parse_order_status_response
parse_order_status_response_sound is_date expected (object fs) order h = record {
  same_order = str_eq_sound order.public_order_number expected (ground arith);
  currency = ground arith;
  items = parse_lines_sound is_not_blank (get (js "items") fs) order.items (ground arith);
  subtotal =
      parse_positive_amount_sound (get (js "subtotal_amount") fs) invalid_contract
        order.subtotal_amount (ground arith);
  total =
      parse_positive_amount_sound (get (js "total_amount") fs) invalid_contract order.total_amount
        (ground arith);
  table =
      parse_table_number_sound order.order_type (get (js "table_number") fs) order.table_number
        (ground arith);
  created = ground arith;
  updated = ground arith;
}
parse_order_status_response_sound is_date expected _ order h = absurd (cc)
