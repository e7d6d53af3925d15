-- ===== src/Orders/Fields.antt =====
-- The tests on single fields that the parsers of frontend/src/api/customerApi.ts share.
use mathlib.Core.List.{map}
use restaurant_ordering_anal.Base.{
  ℕ, suc, Bool, true, false, not, ◌&&◌, ◌||◌, List, [], ◌∷◌, Option, none, some, JsString, js,
  if◌then◌else◌, length, ltb, one_of, Outcome, ok, throw, ◌>>=◌, ◌>>◌, ◌==◌, str_eq,
}
use restaurant_ordering_anal.Js.{
  Number, is_integer, is_safe_integer, num_lt, num_gt, num_le, num_eq, Value, Fields, get,
  as_record, as_string, as_number, as_array,
}
use restaurant_ordering_anal.Js.Keys.{has_exact_keys}
use restaurant_ordering_anal.Js.Pattern.{matches, uuid_pattern}
use restaurant_ordering_anal.Api.Errors.{ApiRequestError, api_error, invalid_response, checkout}
use restaurant_ordering_anal.Api.Config.{guard_ok}

-- The errors of `invalidResponse`, `invalidQuoteResponse`, `invalidOrderResponse` and
-- `invalidOrderStatusResponse` differ in their messages, which are left out.
abbrev pub invalid_contract : ApiRequestError
invalid_contract = api_error invalid_response

abbrev pub invalid_checkout_response : ApiRequestError
invalid_checkout_response = record {
  origin = checkout;
  kind = invalid_response;
  status = none;
  retry_after_seconds = none;
}

abbrev pub require : {A : Type 0} → Option A → ApiRequestError → Outcome ApiRequestError A
require none e = throw e
require (some a) e = ok a

-- `value.map(parse)`, which stops at the first throw.
unfoldable pub map_ok :
    {A B : Type 0} → (A → Outcome ApiRequestError B) → List A → Outcome ApiRequestError (List B)
map_ok parse [] = ok []
map_ok parse (v ∷ vs) = do item ← parse v; items ← map_ok parse vs; ok (item ∷ items)

-- `new Set(ids).size`.
unfoldable pub set_size : List JsString → ℕ
set_size [] = 0
set_size (id ∷ ids) = if one_of ids id then set_size ids else suc (set_size ids)

abbrev pub exact_record : List JsString → Value → ApiRequestError → Outcome ApiRequestError Fields
exact_record expected value e = do
  fields ← require (as_record value) e
  guard_ok (has_exact_keys fields expected) e
  ok fields

abbrev pub matching_string :
    (JsString → Bool) → Value → ApiRequestError → Outcome ApiRequestError JsString
matching_string test value e = do s ← require (as_string value) e; guard_ok (test s) e; ok s

-- `value.length < 1 || value.length > 120`, negated.
abbrev pub is_name : JsString → Bool
is_name s = not (ltb (length s) 1) && not (ltb 120 (length s))

-- An integer from 1 to 99.
unfoldable pub parse_quantity : Value → ApiRequestError → Outcome ApiRequestError Number
parse_quantity value e = do
  quantity ← require (as_number value) e
  guard_ok (is_integer quantity) e
  guard_ok (not (num_lt quantity 1)) e
  guard_ok (not (num_gt quantity 99)) e
  ok quantity

-- A positive safe integer.
unfoldable pub parse_positive_amount : Value → ApiRequestError → Outcome ApiRequestError Number
parse_positive_amount value e = do
  amount ← require (as_number value) e
  guard_ok (is_safe_integer amount) e
  guard_ok (not (num_le amount 0)) e
  ok amount

-- The keys of a line of a quote or an order.
abbrev pub quote_line_keys : List JsString
quote_line_keys =
    js "line_total_amount"
    ∷ js "menu_item_id"
    ∷ js "name"
    ∷ js "quantity"
    ∷ js "unit_price_amount"
    ∷ []

pub record QuoteLine : Type 0 where
  pub line_total_amount : Number
  pub menu_item_id : JsString
  pub name : JsString
  pub quantity : Number
  pub unit_price_amount : Number

-- `parseQuoteLine` and `parseOrderItem`, which differ in the test on the name.
unfoldable pub parse_line : (JsString → Bool) → Value → Outcome ApiRequestError QuoteLine
parse_line is_valid_name value = do
  fields ← exact_record quote_line_keys value invalid_contract
  id ← matching_string (matches uuid_pattern) (get (js "menu_item_id") fields) invalid_contract
  name ← matching_string is_valid_name (get (js "name") fields) invalid_contract
  quantity ← parse_quantity (get (js "quantity") fields) invalid_contract
  line_total ← parse_positive_amount (get (js "line_total_amount") fields) invalid_contract
  unit_price ← parse_positive_amount (get (js "unit_price_amount") fields) invalid_contract
  ok (record {
    line_total_amount = line_total;
    menu_item_id = id;
    name = name;
    quantity = quantity;
    unit_price_amount = unit_price;
  })

abbrev pub line_id : QuoteLine → JsString
line_id line = line.menu_item_id

-- The list of 1 to 50 lines with distinct items.
unfoldable pub parse_lines : (JsString → Bool) → Value → Outcome ApiRequestError (List QuoteLine)
parse_lines is_valid_name value = do
  values ← require (as_array value) invalid_contract
  guard_ok (not (ltb (length values) 1)) invalid_contract
  guard_ok (not (ltb 50 (length values))) invalid_contract
  items ← map_ok (parse_line is_valid_name) values
  guard_ok (set_size (map line_id items) == length items) invalid_contract
  ok items

pub record QuoteItemRequest : Type 0 where
  pub menu_item_id : JsString
  pub quantity : Number

-- The loop of `validateQuoteItems`.
unfoldable pub validate_items_from : List JsString → List QuoteItemRequest → Bool
validate_items_from seen_ids [] = true
validate_items_from seen_ids (item ∷ items) =
    let rest = validate_items_from (item.menu_item_id ∷ seen_ids) items in
    if not (matches uuid_pattern item.menu_item_id)
      || not (is_integer item.quantity)
      || num_lt item.quantity 1
      || num_gt item.quantity 99
      || one_of seen_ids item.menu_item_id
    then false
    else rest

unfoldable pub validate_quote_items : List QuoteItemRequest → Outcome ApiRequestError (Unit {0})
validate_quote_items items = do
  guard_ok (not (ltb (length items) 1 || ltb 50 (length items))) invalid_contract
  guard_ok (validate_items_from [] items) invalid_contract

-- The lines answer the request one by one: same item, same quantity.
unfoldable pub answers : List QuoteLine → List QuoteItemRequest → Bool
answers [] [] = true
answers (line ∷ lines) (item ∷ items) =
    str_eq line.menu_item_id item.menu_item_id
    && num_eq line.quantity item.quantity
    && answers lines items
answers _ _ = false
