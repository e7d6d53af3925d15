-- ===== src/Orders/Order.antt =====
-- frontend/src/api/customerApi.ts: `parseOrderCreateResponse` and `createOrder`.
use restaurant_ordering_anal.Base.{
  Bool, true, false, not, ◌&&◌, List, [], ◌∷◌, Option, none, some, JsString, js, if◌then◌else◌,
  str_eq, Outcome, ok, throw, ◌>>=◌, ◌>>◌,
}
use restaurant_ordering_anal.Js.{
  Number, is_safe_integer, num_le, num_eq, Value, null, number, string, object, field, end, get,
  as_string,
}
use restaurant_ordering_anal.Js.Pattern.{
  matches, currency_pattern, order_number_pattern, trim, is_empty,
}
use restaurant_ordering_anal.Api.Errors.{ApiRequestError}
use restaurant_ordering_anal.Api.Config.{guard_ok}
use restaurant_ordering_anal.Api.Exchange.{
  World, Sent, request_post_json, append_optional_credentials,
}
use restaurant_ordering_anal.Orders.Fields.{
  QuoteLine, QuoteItemRequest, invalid_contract, require, exact_record, matching_string,
  parse_lines, parse_positive_amount, validate_quote_items, answers,
}
use restaurant_ordering_anal.Orders.Quote.{
  encode_request_items, json_headers, and_then, after_check,
}

pub data OrderType : Type 0 where
  dine_in takeaway : OrderType

pub data OrderStatus : Type 0 where
  accepted cancelled completed created preparing ready : OrderStatus

pub record OrderCreateResponse : Type 0 where
  pub currency : JsString
  pub items : List QuoteLine
  pub order_access_token : JsString
  pub order_type : OrderType
  pub public_order_number : JsString
  pub status : OrderStatus
  pub subtotal_amount : Number
  pub table_number : Option Number
  pub total_amount : Number

abbrev pub order_response_keys : List JsString
order_response_keys =
    js "currency"
    ∷ js "items"
    ∷ js "order_access_token"
    ∷ js "order_type"
    ∷ js "public_order_number"
    ∷ js "status"
    ∷ js "subtotal_amount"
    ∷ js "table_number"
    ∷ js "total_amount"
    ∷ []

-- `ORDER_STATUSES.has(value)`, with the status that the text stands for.
unfoldable pub read_status : JsString → Option OrderStatus
read_status s =
    if str_eq s (js "accepted")
    then some accepted
    else if str_eq s (js "cancelled")
    then some cancelled
    else if str_eq s (js "completed")
    then some completed
    else if str_eq s (js "created")
    then some created
    else if str_eq s (js "preparing")
    then some preparing
    else if str_eq s (js "ready")
    then some ready
    else none

unfoldable pub read_order_type : JsString → Option OrderType
read_order_type s =
    if str_eq s (js "takeaway")
    then some takeaway
    else if str_eq s (js "dine_in")
    then some dine_in
    else none

unfoldable pub parse_status : Value → Outcome ApiRequestError OrderStatus
parse_status value = do
  s ← require (as_string value) invalid_contract
  require (read_status s) invalid_contract

unfoldable pub parse_order_type : Value → Outcome ApiRequestError OrderType
parse_order_type value = do
  s ← require (as_string value) invalid_contract
  require (read_order_type s) invalid_contract

-- `table_number` is `null` for takeaway, and a positive safe integer at a table.
unfoldable pub parse_table_number : OrderType → Value → Outcome ApiRequestError (Option Number)
parse_table_number takeaway null = ok none
parse_table_number takeaway _ = throw invalid_contract
parse_table_number dine_in value = do
  table ← parse_positive_amount value invalid_contract
  ok (some table)

abbrev pub is_not_blank : JsString → Bool
is_not_blank s = not (is_empty (trim s))

unfoldable pub parse_order_create_response : Value → Outcome ApiRequestError OrderCreateResponse
parse_order_create_response value = do
  fields ← exact_record order_response_keys value invalid_contract
  order_number ←
      matching_string (matches order_number_pattern) (get (js "public_order_number") fields)
        invalid_contract
  token ← matching_string is_not_blank (get (js "order_access_token") fields) invalid_contract
  status ← parse_status (get (js "status") fields)
  order_type ← parse_order_type (get (js "order_type") fields)
  currency ←
      matching_string (matches currency_pattern) (get (js "currency") fields) invalid_contract
  subtotal ← parse_positive_amount (get (js "subtotal_amount") fields) invalid_contract
  total ← parse_positive_amount (get (js "total_amount") fields) invalid_contract
  table ← parse_table_number order_type (get (js "table_number") fields)
  items ← parse_lines is_not_blank (get (js "items") fields)
  ok (record {
    currency = currency;
    items = items;
    order_access_token = token;
    order_type = order_type;
    public_order_number = order_number;
    status = status;
    subtotal_amount = subtotal;
    table_number = table;
    total_amount = total;
  })

pub data OrderCreateRequest : Type 0 where
  for_takeaway : List QuoteItemRequest → OrderCreateRequest
  for_table : List QuoteItemRequest → Number → OrderCreateRequest

abbrev pub request_items : OrderCreateRequest → List QuoteItemRequest
request_items (for_takeaway items) = items
request_items (for_table items table) = items

abbrev pub request_type : OrderCreateRequest → OrderType
request_type (for_takeaway items) = takeaway
request_type (for_table items table) = dine_in

abbrev pub request_table : OrderCreateRequest → Option Number
request_table (for_takeaway items) = none
request_table (for_table items table) = some table

abbrev pub encode_order : OrderCreateRequest → Value
encode_order (for_takeaway items) = object (
    field (js "items") (encode_request_items items)
      (field (js "order_type") (string (js "takeaway")) end))
encode_order (for_table items table) = object (
    field (js "items") (encode_request_items items) (
      field (js "order_type") (string (js "dine_in"))
        (field (js "table_number") (number table) end)))

abbrev pub is_valid_table : Option Number → Bool
is_valid_table none = true
is_valid_table (some table) = is_safe_integer table && not (num_le table 0)

abbrev pub same_type : OrderType → OrderType → Bool
same_type dine_in dine_in = true
same_type takeaway takeaway = true
same_type _ _ = false

abbrev pub same_table : Option Number → Option Number → Bool
same_table none none = true
same_table (some a) (some b) = num_eq a b
same_table _ _ = false

unfoldable pub checked_order :
    OrderCreateRequest → Value → Outcome ApiRequestError OrderCreateResponse
checked_order request payload = do
  response ← parse_order_create_response payload
  guard_ok (same_type response.order_type (request_type request)) invalid_contract
  guard_ok (same_table response.table_number (request_table request)) invalid_contract
  guard_ok (answers response.items (request_items request)) invalid_contract
  ok response

unfoldable pub order_headers :
    OrderCreateRequest → Option JsString → Outcome ApiRequestError (List (JsString × JsString))
order_headers request access_token = do
  validate_quote_items (request_items request)
  guard_ok (is_valid_table (request_table request)) invalid_contract
  append_optional_credentials json_headers access_token none invalid_contract

unfoldable pub create_order :
    World → OrderCreateRequest → Option JsString → Sent OrderCreateResponse
create_order w request access_token = after_check (order_headers request access_token) λ headers.
    and_then (request_post_json w (js "/api/v1/orders") (encode_order request) headers)
      (checked_order request)
