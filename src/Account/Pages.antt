-- ===== src/Account/Pages.antt =====
-- frontend/src/features/account/accountApi.ts
use restaurant_ordering_anal.Base.{
  ℕ, suc, zero, ◌+◌, ◌/◌, ◌%◌, Bool, not, ◌&&◌, List, [], ◌∷◌, ◌++◌, Option, none, some, JsString,
  js, if◌then◌else◌, length, ltb, Outcome, ok, throw, ◌>>=◌, ◌>>◌,
}
use restaurant_ordering_anal.Js.{
  Number, nat, is_safe_integer, num_lt, num_le, num_gt, max_safe_integer, Value, get, as_string,
  as_number, as_array, is_number,
}
use restaurant_ordering_anal.Js.Pattern.{matches, order_number_pattern, currency_pattern}
use restaurant_ordering_anal.Api.Errors.{ApiRequestError, authenticated, invalid_response}
use restaurant_ordering_anal.Api.Config.{Url, guard_ok}
use restaurant_ordering_anal.Api.Exchange.{World, Sent}
use restaurant_ordering_anal.Api.Authenticated.{account_orders_path, authenticated_request_json}
use restaurant_ordering_anal.Orders.Fields.{require, map_ok, exact_record, matching_string}
use restaurant_ordering_anal.Orders.Quote.{and_then, after_check}
use restaurant_ordering_anal.Orders.Order.{OrderType, OrderStatus, read_status, read_order_type}
use restaurant_ordering_anal.Orders.Checkout.{is_aware_datetime}
use restaurant_ordering_anal.Orders.Status.{OrderStatusResponse, parse_order_status_response}

abbrev pub default_limit : Number
default_limit = nat 50

abbrev pub default_offset : Number
default_offset = nat 0

abbrev pub list_response_keys : List JsString
list_response_keys = js "items" ∷ js "limit" ∷ js "offset" ∷ js "total" ∷ []

abbrev pub list_item_keys : List JsString
list_item_keys =
    js "created_at"
    ∷ js "currency"
    ∷ js "order_type"
    ∷ js "public_order_number"
    ∷ js "status"
    ∷ js "total_amount"
    ∷ js "updated_at"
    ∷ []

pub record AccountOrderListItem : Type 0 where
  pub created_at : JsString
  pub currency : JsString
  pub order_type : OrderType
  pub public_order_number : JsString
  pub status : OrderStatus
  pub total_amount : Number
  pub updated_at : JsString

pub record AccountOrdersResponse : Type 0 where
  pub items : List AccountOrderListItem
  pub limit : ℕ
  pub offset : ℕ
  pub total : ℕ

abbrev pub invalid_account_response : ApiRequestError
invalid_account_response = record {
  origin = authenticated;
  kind = invalid_response;
  status = none;
  retry_after_seconds = none;
}

abbrev pub as_natural : Number → Option ℕ
as_natural (nat n) = some n
as_natural _ = none

-- A safe integer from `low` to `high`, which the tests leave to be a natural number.
unfoldable pub integer_in : ℕ → ℕ → Number → Option ℕ
integer_in low high x =
    if is_safe_integer x && not (num_lt x low) && not (num_gt x high) then as_natural x else none

-- `items.length > limit || (items.length > 0 && offset + items.length > total)`, negated.
abbrev pub fits_page : ℕ → ℕ → ℕ → ℕ → Bool
fits_page count limit offset total =
    not (ltb limit count) && not (ltb 0 count && ltb total (offset + count))

module _ (is_date : JsString → Bool) where
  unfoldable pub parse_list_item : Value → Outcome ApiRequestError AccountOrderListItem
  parse_list_item value = do
    fields ← exact_record list_item_keys value invalid_account_response
    order_number ←
        matching_string (matches order_number_pattern) (get (js "public_order_number") fields)
          invalid_account_response
    status_name ← require (as_string (get (js "status") fields)) invalid_account_response
    status ← require (read_status status_name) invalid_account_response
    type_name ← require (as_string (get (js "order_type") fields)) invalid_account_response
    order_type ← require (read_order_type type_name) invalid_account_response
    total_amount ← require (as_number (get (js "total_amount") fields)) invalid_account_response
    guard_ok (is_safe_integer total_amount) invalid_account_response
    guard_ok (not (num_le total_amount 0)) invalid_account_response
    currency ←
        matching_string (matches currency_pattern) (get (js "currency") fields)
          invalid_account_response
    created_at ←
        matching_string (is_aware_datetime is_date) (get (js "created_at") fields)
          invalid_account_response
    updated_at ←
        matching_string (is_aware_datetime is_date) (get (js "updated_at") fields)
          invalid_account_response
    ok (record {
      created_at = created_at;
      currency = currency;
      order_type = order_type;
      public_order_number = order_number;
      status = status;
      total_amount = total_amount;
      updated_at = updated_at;
    })

  unfoldable pub parse_list_response : ℕ → ℕ → Value → Outcome ApiRequestError AccountOrdersResponse
  parse_list_response expected_limit expected_offset value = do
    fields ← exact_record list_response_keys value invalid_account_response
    values ← require (as_array (get (js "items") fields)) invalid_account_response
    number ← require (as_number (get (js "total") fields)) invalid_account_response
    total ← require (integer_in 0 max_safe_integer number) invalid_account_response
    guard_ok (is_number (nat expected_limit) (get (js "limit") fields)) invalid_account_response
    guard_ok (is_number (nat expected_offset) (get (js "offset") fields)) invalid_account_response
    items ← map_ok parse_list_item values
    guard_ok (fits_page (length items) expected_limit expected_offset total)
        invalid_account_response
    ok (record { items = items; limit = expected_limit; offset = expected_offset; total = total })

-- The limit and the offset, once they are known to be integers in range.
unfoldable pub validate_pagination : Number → Number → Outcome ApiRequestError (ℕ × ℕ)
validate_pagination limit offset = do
  l ← require (integer_in 1 100 limit) invalid_account_response
  o ← require (integer_in 0 max_safe_integer offset) invalid_account_response
  ok (l, o)

-- A natural number in a template literal; the fuel bounds the number of digits.
unfoldable pub digits_from : ℕ → ℕ → JsString
digits_from zero n = []
digits_from (suc fuel) n =
    let rest = digits_from fuel (n / 10) in
    if ltb n 10 then (b'0' + n) ∷ [] else rest ++ ((b'0' + n % 10) ∷ [])

unfoldable pub numeral : ℕ → JsString
unfolding digits_from
numeral n = digits_from (suc n) n

unfoldable pub page_path : ℕ → ℕ → JsString
page_path limit offset =
    account_orders_path ++ (js "?limit=" ++ (numeral limit ++ (js "&offset=" ++ numeral offset)))

unfoldable pub order_path : JsString → JsString
order_path order_number = account_orders_path ++ (js "/" ++ order_number)

abbrev pub or_default : Number → Option Number → Number
or_default n none = n
or_default n (some m) = m

abbrev pub or_invalid_response :
    {A : Type 0} → Outcome ApiRequestError A → Outcome ApiRequestError A
or_invalid_response (ok a) = ok a
or_invalid_response (throw e) = throw invalid_account_response

module _ (w : World) (parse_path : JsString → Option Url) (is_date : JsString → Bool) where
  abbrev pub fetch_page : JsString → ℕ × ℕ → Sent AccountOrdersResponse
  fetch_page access_token (limit, offset) =
      and_then (authenticated_request_json w parse_path (page_path limit offset) access_token none)
        (parse_list_response is_date limit offset)

  unfoldable pub fetch_account_orders :
      JsString → Option Number → Option Number → Sent AccountOrdersResponse
  fetch_account_orders access_token limit offset =
      after_check
        (validate_pagination (or_default default_limit limit) (or_default default_offset offset))
        (fetch_page access_token)

  unfoldable pub fetch_account_order : JsString → JsString → Sent OrderStatusResponse
  fetch_account_order order_number access_token =
      after_check (guard_ok (matches order_number_pattern order_number) invalid_account_response)
        λ _.
          and_then
            (authenticated_request_json w parse_path (order_path order_number) access_token none)
            (λ payload.
              or_invalid_response (parse_order_status_response is_date order_number payload))
