-- ===== src/Orders/Quote.antt =====
-- frontend/src/api/customerApi.ts: `parseQuoteResponse` and `quoteOrder`.
use mathlib.Core.List.{map}
use restaurant_ordering_anal.Base.{List, [], ◌∷◌, JsString, js, Outcome, ok, throw, ◌>>=◌, ◌>>◌}
use restaurant_ordering_anal.Js.{
  Number, Value, number, string, array, object, field, end, get, from_elements,
}
use restaurant_ordering_anal.Js.Pattern.{matches, currency_pattern}
use restaurant_ordering_anal.Api.Errors.{ApiRequestError}
use restaurant_ordering_anal.Api.Config.{guard_ok}
use restaurant_ordering_anal.Api.Exchange.{World, Sent, request_post_json}
use restaurant_ordering_anal.Orders.Fields.{
  QuoteLine, QuoteItemRequest, invalid_contract, exact_record, matching_string, parse_lines,
  parse_positive_amount, is_name, validate_quote_items, answers,
}

pub record QuoteResponse : Type 0 where
  pub currency : JsString
  pub items : List QuoteLine
  pub subtotal_amount : Number
  pub total_amount : Number

abbrev pub quote_keys : List JsString
quote_keys = js "currency" ∷ js "items" ∷ js "subtotal_amount" ∷ js "total_amount" ∷ []

unfoldable pub parse_quote_response : Value → Outcome ApiRequestError QuoteResponse
parse_quote_response value = do
  fields ← exact_record quote_keys value invalid_contract
  currency ←
      matching_string (matches currency_pattern) (get (js "currency") fields) invalid_contract
  items ← parse_lines is_name (get (js "items") fields)
  subtotal ← parse_positive_amount (get (js "subtotal_amount") fields) invalid_contract
  total ← parse_positive_amount (get (js "total_amount") fields) invalid_contract
  ok (record {
    currency = currency;
    items = items;
    subtotal_amount = subtotal;
    total_amount = total;
  })

abbrev pub encode_request_item : QuoteItemRequest → Value
encode_request_item item = object (
    field (js "menu_item_id") (string item.menu_item_id)
      (field (js "quantity") (number item.quantity) end))

abbrev pub encode_request_items : List QuoteItemRequest → Value
encode_request_items items = array (from_elements (map encode_request_item items))

-- The default headers of `requestPostJson`.
abbrev pub json_headers : List (JsString × JsString)
json_headers =
    (js "Accept", js "application/json") ∷ (js "Content-Type", js "application/json") ∷ []

-- The request comes before the parse of its answer.
abbrev pub and_then : {A B : Type 0} → Sent A → (A → Outcome ApiRequestError B) → Sent B
and_then (requests, result) parse = (requests, result >>= parse)

-- What stops a call before it has sent anything.
abbrev pub after_check : {A B : Type 0} → Outcome ApiRequestError A → (A → Sent B) → Sent B
after_check (throw e) send = ([], throw e)
after_check (ok a) send = send a

unfoldable pub checked_quote : List QuoteItemRequest → Value → Outcome ApiRequestError QuoteResponse
checked_quote items payload = do
  quote ← parse_quote_response payload
  guard_ok (answers quote.items items) invalid_contract
  ok quote

unfoldable pub quote_order : World → List QuoteItemRequest → Sent QuoteResponse
quote_order w items = after_check (validate_quote_items items) λ _.
    and_then
      (request_post_json w (js "/api/v1/orders/quote")
        (object (field (js "items") (encode_request_items items) end)) json_headers)
      (checked_quote items)
