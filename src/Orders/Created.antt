-- ===== src/Orders/Created.antt =====
-- What `createOrder` promises.
use restaurant_ordering_anal.Base.{
  ◌≡◌, refl, true, List, [], ◌∷◌, Option, none, some, JsString, js, ok, arith, ap, sym, ◌∙◌, ◌++◌,
}
use restaurant_ordering_anal.Js.{Value, object, get, null, Number, num_eq-nat_left}
use restaurant_ordering_anal.Js.Pattern.{matches, currency_pattern, order_number_pattern}
use restaurant_ordering_anal.Api.Exchange.{World, append_optional_credentials}
use restaurant_ordering_anal.Orders.Fields.{invalid_contract}
use restaurant_ordering_anal.Orders.Quote.{json_headers}
use restaurant_ordering_anal.Orders.Order.{
  OrderType, dine_in, takeaway, OrderCreateResponse, OrderCreateRequest, request_items,
  request_type, request_table, encode_order, is_valid_table, is_not_blank, same_type, same_table,
  parse_table_number, parse_order_create_response, checked_order, order_headers, create_order,
}
use restaurant_ordering_anal.Orders.Lines.{
  IsAmount, AreLines, Answers, AreRequestItems, parse_lines_sound, parse_positive_amount_sound,
  answers_sound, validate_quote_items_sound,
}
use restaurant_ordering_anal.Orders.Quoted.{PostsOne, posted_ok}

-- Takeaway has no table, and an order at a table names it by a positive safe integer.
abbrev pub IsTable : OrderType → Option Number → Type 0
IsTable takeaway none = Unit {0}
IsTable takeaway (some table) = ⊥
IsTable dine_in none = ⊥
IsTable dine_in (some table) = IsAmount table

pub record IsOrder (order : OrderCreateResponse) : Type 0 where
  pub number : matches order_number_pattern order.public_order_number ≡ true
  pub token : is_not_blank order.order_access_token ≡ true
  pub currency : matches currency_pattern order.currency ≡ true
  pub items : AreLines is_not_blank order.items
  pub subtotal : IsAmount order.subtotal_amount
  pub total : IsAmount order.total_amount
  pub table : IsTable order.order_type order.table_number

pub parse_table_number_sound :
    (t : OrderType) (v : Value) (table : Option Number)
    → parse_table_number t v ≡ ok table
    → IsTable t table
unfolding parse_table_number
parse_table_number_sound takeaway null none h = tt
parse_table_number_sound takeaway null (some x) h = absurd (cc)
parse_table_number_sound takeaway _ table h = absurd (cc)
parse_table_number_sound dine_in v none h = absurd (ground arith)
parse_table_number_sound dine_in v (some x) h =
    parse_positive_amount_sound v invalid_contract x (ground arith)

-- An accepted order is well formed in every field, and has a table exactly if it is eaten at one.
pub parse_order_create_response_sound :
    (v : Value) (order : OrderCreateResponse)
    → parse_order_create_response v ≡ ok order
    → IsOrder order
unfolding parse_order_create_response
parse_order_create_response_sound (object fs) order h = record {
  number = ground arith;
  token = ground arith;
  currency = ground arith;
  items = parse_lines_sound is_not_blank (get (js "items") fs) order.items (ground arith);
  subtotal =
      parse_positive_amount_sound (get (js "subtotal_amount") fs) invalid_contract
        order.subtotal_amount (ground arith);
  total =
      parse_positive_amount_sound (get (js "total_amount") fs) invalid_contract order.total_amount
        (ground arith);
  table =
      parse_table_number_sound order.order_type (get (js "table_number") fs) order.table_number
        (ground arith);
}
parse_order_create_response_sound _ order h = absurd (cc)

same_type-eq : (a b : OrderType) → same_type a b ≡ true → a ≡ b
same_type-eq dine_in dine_in h = refl
same_type-eq takeaway takeaway h = refl
same_type-eq dine_in takeaway h = cc
same_type-eq takeaway dine_in h = cc

same_table-eq : (t : OrderType) (a b : Option Number) → IsTable t a → same_table a b ≡ true → a ≡ b
same_table-eq t none none i h = refl
same_table-eq t none (some y) i h = absurd (cc)
same_table-eq t (some x) none i h = absurd (cc)
same_table-eq takeaway (some x) (some y) i h = absurd i
same_table-eq dine_in (some x) (some y) (n, e, lo, hi) h =
    ap some (e ∙ sym (num_eq-nat_left y n (ground arith)))

checked_order_sound :
    (request : OrderCreateRequest) (v : Value) (order : OrderCreateResponse)
    → checked_order request v ≡ ok order
    → IsOrder order
      × (order.order_type ≡ request_type request)
      × (order.table_number ≡ request_table request)
      × Answers order.items (request_items request)
unfolding checked_order
checked_order_sound request v order h =
    let parsed : parse_order_create_response v ≡ ok order = ground arith in
    let good = parse_order_create_response_sound v order parsed in
    (
      good,
      same_type-eq order.order_type (request_type request) (ground arith),
      same_table-eq order.order_type order.table_number (request_table request) good.table
          (ground arith),
      answers_sound is_not_blank order.items (request_items request) good.items.each (ground arith),
    )

-- The headers of an order: those for JSON, and the session's token if one is given.
abbrev pub order_headers_of : Option JsString → List (JsString × JsString)
order_headers_of none = json_headers
order_headers_of (some token) = json_headers ++ ((js "Authorization", js "Bearer " ++ token) ∷ [])

order_headers_sound :
    (request : OrderCreateRequest) (token : Option JsString) (headers : List (JsString × JsString))
    → order_headers request token ≡ ok headers
    → AreRequestItems (request_items request)
      × (is_valid_table (request_table request) ≡ true)
      × (headers ≡ order_headers_of token)
unfolding order_headers append_optional_credentials
order_headers_sound request token headers h =
    (validate_quote_items_sound (request_items request) (ground arith), ground arith, ground arith)

-- A created order was asked for by one POST of a valid request, with the session's token if there is
-- one; it is well formed, and it is the order that was asked for: same kind, same table, same lines.
pub create_order_sound :
    (w : World) (request : OrderCreateRequest) (token : Option JsString)
    (order : OrderCreateResponse)
    → (create_order w request token).1 ≡ ok order
    → AreRequestItems (request_items request)
      × PostsOne w
          (js "/api/v1/orders")
          (encode_order request)
          (order_headers_of token)
          (create_order w request token).0
      × IsOrder order
      × (order.order_type ≡ request_type request)
      × (order.table_number ≡ request_table request)
      × Answers order.items (request_items request)
unfolding create_order
create_order_sound w request token order h =
    let (headers, v, checked, posted, parsed) =
      posted_ok w (order_headers request token) (js "/api/v1/orders") (encode_order request)
        (λ hs. hs) (checked_order request) order h in
    let (valid, table, same) = order_headers_sound request token headers checked in
    let (good, type, at, answer) = checked_order_sound request v order parsed in
    (valid, rw same at posted, good, type, at, answer)
