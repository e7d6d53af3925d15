-- ===== src/Account/Listed.antt =====
-- What a page of personal orders promises.
use restaurant_ordering_anal.Base.{
  ℕ, ◌+◌, ◌≤◌, ◌≡◌, refl, Bool, true, false, List, [], ◌∷◌, Option, none, some, JsString, js,
  length, All, ok, >>=-eq-ok, arith, Option-cases, Outcome-cases, inl, inr, ◌⊎◌,
}
use restaurant_ordering_anal.Js.{
  Number, nat, is_safe_integer, num_lt, num_le, num_gt, max_safe_integer, Value, object, get,
  as_array, as_number,
}
use restaurant_ordering_anal.Js.Pattern.{matches, order_number_pattern, currency_pattern}
use restaurant_ordering_anal.Api.Config.{Url}
use restaurant_ordering_anal.Api.Exchange.{World, Request}
use restaurant_ordering_anal.Api.Authenticated.{authenticated_request, authenticated_request_json}
use restaurant_ordering_anal.Orders.Fields.{map_ok}
use restaurant_ordering_anal.Orders.Lines.{map_ok_sound}
use restaurant_ordering_anal.Orders.Checkout.{is_aware_datetime}
use restaurant_ordering_anal.Account.Pages.{
  AccountOrderListItem, AccountOrdersResponse, integer_in, parse_list_item, parse_list_response,
  validate_pagination, page_path, fetch_page, fetch_account_orders, default_limit, default_offset,
  or_default,
}

integer_in_sound :
    (low high : ℕ) (x : Number) (n : ℕ)
    → integer_in low high x ≡ some n
    → (x ≡ nat n) × (low ≤ n) × (n ≤ high) × (n ≤ max_safe_integer)
unfolding integer_in is_safe_integer num_lt num_gt
integer_in_sound low high x n h = ground arith

pub record IsListItem (is_date : JsString → Bool) (item : AccountOrderListItem) : Type 0 where
  pub number : matches order_number_pattern item.public_order_number ≡ true
  pub currency : matches currency_pattern item.currency ≡ true
  pub amount : (n : ℕ) × (item.total_amount ≡ nat n) × (1 ≤ n) × (n ≤ max_safe_integer)
  pub created : is_aware_datetime is_date item.created_at ≡ true
  pub updated : is_aware_datetime is_date item.updated_at ≡ true

-- A page holds no more items than were asked for, none beyond the total, and each is well formed.
pub record IsPage (is_date : JsString → Bool) (limit offset : ℕ) (page : AccountOrdersResponse)
    : Type 0 where
  pub items : All (IsListItem is_date) page.items
  pub same_limit : page.limit ≡ limit
  pub same_offset : page.offset ≡ offset
  pub few : length page.items ≤ limit
  pub within : (page.items ≡ []) ⊎ (offset + length page.items ≤ page.total)
  pub total : page.total ≤ max_safe_integer

amount_sound :
    (x : Number)
    → is_safe_integer x ≡ true
    → num_le x 0 ≡ false
    → (n : ℕ) × (x ≡ nat n) × (1 ≤ n) × (n ≤ max_safe_integer)
unfolding is_safe_integer num_le
amount_sound x s h = ground arith

module _ (is_date : JsString → Bool) where
  parse_list_item_sound :
      (v : Value) (item : AccountOrderListItem)
      → parse_list_item is_date v ≡ ok item
      → IsListItem is_date item
  unfolding parse_list_item
  parse_list_item_sound v item h = record {
    number = ground arith;
    currency = ground arith;
    amount = amount_sound item.total_amount (ground arith) (ground arith);
    created = ground arith;
    updated = ground arith;
  }

  none-within :
      (items : List AccountOrderListItem) (offset total : ℕ)
      → (length items ≡ 0) ⊎ (offset + length items ≤ total)
      → (items ≡ []) ⊎ (offset + length items ≤ total)
  none-within [] offset total h = inl refl
  none-within (i ∷ is) offset total h = ground arith

  parse_list_response_sound :
      (limit offset : ℕ) (v : Value) (page : AccountOrdersResponse)
      → parse_list_response is_date limit offset v ≡ ok page
      → IsPage is_date limit offset page
  unfolding parse_list_response
  parse_list_response_sound limit offset (object fs) page h =
      elim (Option-cases (as_array (get (js "items") fs))) [
        | inl e ↦ absurd (ground arith)
        | inr (vs, e) ↦ elim (Option-cases (as_number (get (js "total") fs))) [
          | inl f ↦ absurd (ground arith)
          | inr (x, f) ↦
              let parsed : map_ok (parse_list_item is_date) vs ≡ ok page.items = ground arith in
              let (_, _, _, exact) =
                integer_in_sound 0 max_safe_integer x page.total (ground arith) in
              record {
                items =
                    (map_ok_sound (IsListItem is_date) (parse_list_item is_date)
                      parse_list_item_sound vs page.items parsed).0;
                same_limit = ground arith;
                same_offset = ground arith;
                few = ground arith;
                within = none-within page.items offset page.total (ground arith);
                total = exact;
              }
        ]
      ]
  parse_list_response_sound limit offset _ page h = absurd (cc)

  -- A client that has an answer has sent one request, and parsed a payload.
  answered_once :
      (w : World) (parse_path : JsString → Option Url) (path token : JsString) (v : Value)
      → (authenticated_request_json w parse_path path token none).1 ≡ ok v
      → (r : Request) × ((authenticated_request w parse_path path token none ≡ ok r)
          × ((authenticated_request_json w parse_path path token none).0 ≡ r ∷ []))
  unfolding authenticated_request_json
  answered_once w parse_path path token v h =
      elim (Outcome-cases (authenticated_request w parse_path path token none)) [
        | inl (x, unsent) ↦ absurd (ground arith)
        | inr (r, sent) ↦ (r, (sent, rw sent refl))
      ]

  -- A fetched page of personal orders was asked for by one request that the client lets through, for a limit
  -- from 1 to 100 and an offset (50 and 0 where none are given); it has that limit and offset, no more
  -- orders than the limit, none beyond the total, and each order is well formed.
  pub fetch_account_orders_sound :
      (w : World) (parse_path : JsString → Option Url) (token : JsString)
      (limit offset : Option Number) (page : AccountOrdersResponse)
      → (fetch_account_orders w parse_path is_date token limit offset).1 ≡ ok page
      → (l : ℕ) × (o : ℕ) × ((or_default default_limit limit ≡ nat l)
          × (or_default default_offset offset ≡ nat o)
          × (1 ≤ l)
          × (l ≤ 100)
          × IsPage is_date l o page
          × ((r : Request) × ((authenticated_request w parse_path (page_path l o) token none ≡ ok r)
                × ((fetch_account_orders w parse_path is_date token limit offset).0 ≡ r ∷ []))))
  unfolding fetch_account_orders validate_pagination
  fetch_account_orders_sound w parse_path token limit offset page h =
      elim (Option-cases (integer_in 1 100 (or_default default_limit limit))) [
        | inl e ↦ absurd (ground arith)
        | inr (l, e) ↦
            elim (Option-cases (integer_in 0 max_safe_integer (or_default default_offset offset))) [
              | inl f ↦ absurd (ground arith)
              | inr (o, f) ↦
                  let fetched : (fetch_page w parse_path is_date token (l, o)).1 ≡ ok page =
                    rw (e, f) at h in
                  let (v, got, parsed) =
                    >>=-eq-ok (authenticated_request_json w parse_path (page_path l o) token none).1
                      (parse_list_response is_date l o) fetched in
                  let (r, (sent, log)) = answered_once w parse_path (page_path l o) token v got in
                  let (limit_is, low, high, _) =
                    integer_in_sound 1 100 (or_default default_limit limit) l e in
                  let (offset_is, _, _, _) =
                    integer_in_sound 0 max_safe_integer (or_default default_offset offset) o f in
                  (
                    l,
                    o,
                    (
                      limit_is,
                      offset_is,
                      low,
                      high,
                      parse_list_response_sound l o v page parsed,
                      (r, (sent, rw (e, f) log)),
                    ),
                  )
            ]
      ]
