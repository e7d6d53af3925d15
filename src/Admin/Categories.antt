-- ===== src/Admin/Categories.antt =====
-- frontend/src/features/admin-menu/adminMenuApi.ts: the categories, and the loop that fetches all of them.
use restaurant_ordering_anal.Base.{
  ℕ, zero, suc, ◌+◌, Bool, ◌&&◌, ◌||◌, List, [], ◌∷◌, ◌++◌, Option, none, some, JsString, js,
  if◌then◌else◌, length, leb, ◌==◌, replicate, Outcome, ok, throw, ◌>>=◌, ◌>>◌,
}
use restaurant_ordering_anal.Js.{max_safe_integer, Value, null, string, get, as_number, as_array}
use restaurant_ordering_anal.Js.Pattern.{Class, matches, hex, only, between}
use restaurant_ordering_anal.Api.Errors.{ApiRequestError}
use restaurant_ordering_anal.Api.Config.{Url, guard_ok}
use restaurant_ordering_anal.Api.Exchange.{World, Sent}
use restaurant_ordering_anal.Orders.Fields.{require, map_ok, matching_string, is_name}
use restaurant_ordering_anal.Orders.Quote.{and_then}
use restaurant_ordering_anal.Orders.Checkout.{is_aware_datetime}
use restaurant_ordering_anal.Account.Pages.{integer_in, numeral}
use restaurant_ordering_anal.Admin.Client.{invalid_admin_request, get_method, admin_request_json}
use restaurant_ordering_anal.Admin.Users.{own_record, as_boolean}

abbrev pub category_path : JsString
category_path = js "/api/v1/admin/menu/categories"

abbrev pub category_keys : List JsString
category_keys =
    js "id"
    ∷ js "name"
    ∷ js "description"
    ∷ js "display_order"
    ∷ js "is_active"
    ∷ js "created_at"
    ∷ js "updated_at"
    ∷ []

abbrev pub category_list_keys : List JsString
category_list_keys = js "items" ∷ js "total" ∷ js "limit" ∷ js "offset" ∷ []

abbrev pub all_category_page_limit : ℕ
all_category_page_limit = 100

abbrev pub max_category_pages : ℕ
max_category_pages = 100

-- A UUID of a version from 1 to 5, under the flag `i`.
unfoldable pub versioned_uuid_pattern : List Class
versioned_uuid_pattern =
    replicate 8 hex
    ++ (only b'-' ∷ replicate 4 hex
        ++ (only b'-' ∷ between b'1' b'5' ∷ replicate 3 hex
            ++ (only b'-'
                  ∷ (λ c. between b'8' b'9' c || between b'a' b'b' c || between b'A' b'B' c)
                  ∷ replicate 3 hex
                ++ (only b'-' ∷ replicate 12 hex))))

pub record AdminCategory : Type 0 where
  pub created_at : JsString
  pub description : Option JsString
  pub display_order : ℕ
  pub id : JsString
  pub is_active : Bool
  pub name : JsString
  pub updated_at : JsString

pub record AdminCategoryListResponse : Type 0 where
  pub items : List AdminCategory
  pub limit : ℕ
  pub offset : ℕ
  pub total : ℕ

-- A text or `null`.
abbrev pub as_nullable_string : Value → Option (Option JsString)
as_nullable_string null = some none
as_nullable_string (string s) = some (some s)
as_nullable_string _ = none

-- `isSafeInteger(value, minimum)`, with the integer that it finds.
abbrev pub safe_integer : ℕ → Value → Outcome ApiRequestError ℕ
safe_integer minimum value = do
  number ← require (as_number value) invalid_admin_request
  require (integer_in minimum max_safe_integer number) invalid_admin_request

module _ (is_date : JsString → Bool) where
  unfoldable pub parse_category : Value → Outcome ApiRequestError AdminCategory
  parse_category value = do
    fields ← own_record category_keys value
    id ←
        matching_string (matches versioned_uuid_pattern) (get (js "id") fields)
          invalid_admin_request
    name ← matching_string is_name (get (js "name") fields) invalid_admin_request
    description ← require (as_nullable_string (get (js "description") fields)) invalid_admin_request
    display_order ← safe_integer 0 (get (js "display_order") fields)
    is_active ← require (as_boolean (get (js "is_active") fields)) invalid_admin_request
    created_at ←
        matching_string (is_aware_datetime is_date) (get (js "created_at") fields)
          invalid_admin_request
    updated_at ←
        matching_string (is_aware_datetime is_date) (get (js "updated_at") fields)
          invalid_admin_request
    ok (record {
      created_at = created_at;
      description = description;
      display_order = display_order;
      id = id;
      is_active = is_active;
      name = name;
      updated_at = updated_at;
    })

  unfoldable pub parse_category_list : Value → Outcome ApiRequestError AdminCategoryListResponse
  parse_category_list value = do
    fields ← own_record category_list_keys value
    values ← require (as_array (get (js "items") fields)) invalid_admin_request
    total ← safe_integer 0 (get (js "total") fields)
    limit ← safe_integer 1 (get (js "limit") fields)
    guard_ok (leb limit 100) invalid_admin_request
    offset ← safe_integer 0 (get (js "offset") fields)
    items ← map_ok parse_category values
    ok (record { items = items; limit = limit; offset = offset; total = total })

  unfoldable pub checked_category_page :
      ℕ → ℕ → Value → Outcome ApiRequestError AdminCategoryListResponse
  checked_category_page limit offset value = do
    parsed ← parse_category_list value
    guard_ok (parsed.limit == limit && parsed.offset == offset) invalid_admin_request
    ok parsed

unfoldable pub category_page_path : ℕ → ℕ → JsString
category_page_path limit offset =
    category_path ++ (js "?limit=" ++ (numeral limit ++ (js "&offset=" ++ numeral offset)))

module _ (parse_path : JsString → Option Url) (is_date : JsString → Bool)
    (access_token : JsString) where
  unfoldable pub fetch_admin_categories : World → ℕ → ℕ → Sent AdminCategoryListResponse
  fetch_admin_categories w limit offset =
      and_then
        (admin_request_json w parse_path (category_page_path limit offset) get_method
          (some access_token) none none)
        (checked_category_page is_date limit offset)

  -- What follows a page: its categories come before those of the pages after it.
  abbrev pub before : List AdminCategory → Sent (List AdminCategory) → Sent (List AdminCategory)
  before items (requests, result) = (requests, result >>= λ more. ok (items ++ more))

  abbrev pub after_page :
      ℕ
      → Sent AdminCategoryListResponse
      → (ℕ → Sent (List AdminCategory))
      → Sent (List AdminCategory)
  after_page offset (requests, throw e) next = (requests, throw e)
  after_page offset (requests, ok response) next =
      let reached = offset + length response.items in
      if leb response.total reached
      then (requests, ok response.items)
      else if length response.items == 0
      then (requests, throw invalid_admin_request)
      else (requests ++ (next reached).0, (before response.items (next reached)).1)

  -- The loop, with the pages that it may still fetch; `w page` is the network at that page.
  unfoldable pub fetch_pages : (ℕ → World) → ℕ → ℕ → ℕ → Sent (List AdminCategory)
  fetch_pages w zero page offset = ([], throw invalid_admin_request)
  fetch_pages w (suc left) page offset =
      after_page offset (fetch_admin_categories (w page) all_category_page_limit offset)
        (fetch_pages w left (suc page))

  unfoldable pub fetch_all_admin_categories : (ℕ → World) → Sent (List AdminCategory)
  fetch_all_admin_categories w = fetch_pages w max_category_pages 0 0
