-- ===== src/Orders/Status.antt =====
-- frontend/src/api/customerApi.ts: the status of an order.
use restaurant_ordering_anal.Base.{
  Bool, false, not, List, [], ◌∷◌, ◌++◌, Option, none, JsString, js, if◌then◌else◌, str_eq, ◌==◌,
  Outcome, ok, throw, ◌>>=◌, ◌>>◌,
}
use restaurant_ordering_anal.Js.{Number, Value, get, as_string}
use restaurant_ordering_anal.Js.Pattern.{matches, currency_pattern, order_number_pattern}
use restaurant_ordering_anal.Api.Errors.{ApiRequestError, plain, http_error}
use restaurant_ordering_anal.Api.Config.{guard_ok, resolve_api_request_timeout_ms}
use restaurant_ordering_anal.Api.Exchange.{
  Reply, rejected, responded, Exchange, World, Sent, failure, is_success, body_or_failure,
  append_optional_credentials, send_within,
}
use restaurant_ordering_anal.Orders.Fields.{
  QuoteLine, invalid_contract, require, exact_record, matching_string, parse_lines,
  parse_positive_amount,
}
use restaurant_ordering_anal.Orders.Quote.{after_check}
use restaurant_ordering_anal.Orders.Order.{
  OrderType, OrderStatus, parse_status, parse_order_type, parse_table_number, is_not_blank,
}
use restaurant_ordering_anal.Orders.Checkout.{is_aware_datetime}

pub record OrderStatusResponse : Type 0 where
  pub created_at : JsString
  pub currency : JsString
  pub items : List QuoteLine
  pub order_type : OrderType
  pub public_order_number : JsString
  pub status : OrderStatus
  pub subtotal_amount : Number
  pub table_number : Option Number
  pub total_amount : Number
  pub updated_at : JsString

abbrev pub order_status_response_keys : List JsString
order_status_response_keys =
    js "created_at"
    ∷ js "currency"
    ∷ js "items"
    ∷ js "order_type"
    ∷ js "public_order_number"
    ∷ js "status"
    ∷ js "subtotal_amount"
    ∷ js "table_number"
    ∷ js "total_amount"
    ∷ js "updated_at"
    ∷ []

unfoldable pub parse_order_status_response :
    (JsString → Bool) → JsString → Value → Outcome ApiRequestError OrderStatusResponse
parse_order_status_response is_date expected value = do
  fields ← exact_record order_status_response_keys value invalid_contract
  order_number ← require (as_string (get (js "public_order_number") fields)) invalid_contract
  guard_ok (str_eq order_number expected) invalid_contract
  status ← parse_status (get (js "status") fields)
  order_type ← parse_order_type (get (js "order_type") fields)
  currency ←
      matching_string (matches currency_pattern) (get (js "currency") fields) invalid_contract
  subtotal ← parse_positive_amount (get (js "subtotal_amount") fields) invalid_contract
  total ← parse_positive_amount (get (js "total_amount") fields) invalid_contract
  created_at ←
      matching_string (is_aware_datetime is_date) (get (js "created_at") fields) invalid_contract
  updated_at ←
      matching_string (is_aware_datetime is_date) (get (js "updated_at") fields) invalid_contract
  table ← parse_table_number order_type (get (js "table_number") fields)
  items ← parse_lines is_not_blank (get (js "items") fields)
  ok (record {
    created_at = created_at;
    currency = currency;
    items = items;
    order_type = order_type;
    public_order_number = order_number;
    status = status;
    subtotal_amount = subtotal;
    table_number = table;
    total_amount = total;
    updated_at = updated_at;
  })

module _ (w : World) (is_date : JsString → Bool) where
  abbrev status_reply : JsString → Exchange → Reply → Outcome ApiRequestError OrderStatusResponse
  status_reply order_number x rejected = throw (failure plain x false)
  status_reply order_number x (responded status retry_after body) =
      if not (is_success status)
      then throw (http_error status)
      else if not (status == 200)
      then throw invalid_contract
      else body_or_failure plain x body >>= parse_order_status_response is_date order_number

  unfoldable pub settle_order_status :
      JsString → Exchange → Outcome ApiRequestError OrderStatusResponse
  settle_order_status order_number x = status_reply order_number x x.reply

  unfoldable pub status_headers :
      JsString
      → Option JsString
      → Option JsString
      → Outcome ApiRequestError (List (JsString × JsString))
  status_headers order_number access_token guest_access_token = do
    guard_ok (matches order_number_pattern order_number) invalid_contract
    append_optional_credentials [] access_token guest_access_token invalid_contract

  unfoldable pub fetch_order_status :
      JsString → Option JsString → Option JsString → Sent OrderStatusResponse
  fetch_order_status order_number access_token guest_access_token =
      after_check (status_headers order_number access_token guest_access_token) λ headers.
        send_within w (resolve_api_request_timeout_ms w.env none)
          (js "/api/v1/orders/" ++ order_number)
          (λ url. record { method = js "GET"; url = url; headers = headers; body = none })
          (settle_order_status order_number)
