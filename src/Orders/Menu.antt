-- ===== src/Orders/Menu.antt =====
-- frontend/src/api/customerApi.ts: the menu.
use restaurant_ordering_anal.Base.{
  Bool, true, not, List, [], ◌∷◌, Option, none, some, JsString, js, length, ltb, ◌==◌, Outcome, ok,
  throw, ◌>>=◌, ◌>>◌,
}
use restaurant_ordering_anal.Js.{
  Number, is_safe_integer, num_lt, Value, null, string, boolean, get, as_string, as_number,
  as_array,
}
use restaurant_ordering_anal.Js.Pattern.{matches, uuid_pattern, currency_pattern}
use restaurant_ordering_anal.Api.Errors.{ApiRequestError}
use restaurant_ordering_anal.Api.Config.{guard_ok}
use restaurant_ordering_anal.Api.Exchange.{World, Sent, request_json}
use restaurant_ordering_anal.Orders.Fields.{
  invalid_contract, require, map_ok, exact_record, matching_string, is_name, parse_positive_amount,
}
use restaurant_ordering_anal.Orders.Quote.{and_then}

pub record MenuItem : Type 0 where
  pub allergens : List JsString
  pub currency : JsString
  pub description : Option JsString
  pub display_order : Number
  pub id : JsString
  pub image_url : Option JsString
  pub is_available : Bool
  pub name : JsString
  pub price_amount : Number

pub record MenuCategory : Type 0 where
  pub description : Option JsString
  pub display_order : Number
  pub id : JsString
  pub items : List MenuItem
  pub name : JsString

pub record MenuResponse : Type 0 where
  pub categories : List MenuCategory

abbrev pub item_keys : List JsString
item_keys =
    js "allergens"
    ∷ js "currency"
    ∷ js "description"
    ∷ js "display_order"
    ∷ js "id"
    ∷ js "image_url"
    ∷ js "is_available"
    ∷ js "name"
    ∷ js "price_amount"
    ∷ []

abbrev pub category_keys : List JsString
category_keys = js "description" ∷ js "display_order" ∷ js "id" ∷ js "items" ∷ js "name" ∷ []

-- `isNullableString`, with the value that passes.
abbrev pub parse_nullable_string : Value → Outcome ApiRequestError (Option JsString)
parse_nullable_string null = ok none
parse_nullable_string (string s) = ok (some s)
parse_nullable_string _ = throw invalid_contract

abbrev pub fits_image_url : Option JsString → Bool
fits_image_url none = true
fits_image_url (some url) = not (ltb 2048 (length url))

abbrev pub parse_boolean : Value → Outcome ApiRequestError Bool
parse_boolean (boolean b) = ok b
parse_boolean _ = throw invalid_contract

abbrev pub parse_string : Value → Outcome ApiRequestError JsString
parse_string value = require (as_string value) invalid_contract

-- `isDisplayOrder`, with the value that passes.
unfoldable pub parse_display_order : Value → Outcome ApiRequestError Number
parse_display_order value = do
  order ← require (as_number value) invalid_contract
  guard_ok (is_safe_integer order) invalid_contract
  guard_ok (not (num_lt order 0)) invalid_contract
  ok order

unfoldable pub parse_menu_item : Value → Outcome ApiRequestError MenuItem
parse_menu_item value = do
  fields ← exact_record item_keys value invalid_contract
  id ← matching_string (matches uuid_pattern) (get (js "id") fields) invalid_contract
  name ← matching_string is_name (get (js "name") fields) invalid_contract
  description ← parse_nullable_string (get (js "description") fields)
  image_url ← parse_nullable_string (get (js "image_url") fields)
  guard_ok (fits_image_url image_url) invalid_contract
  price ← parse_positive_amount (get (js "price_amount") fields) invalid_contract
  currency ←
      matching_string (matches currency_pattern) (get (js "currency") fields) invalid_contract
  values ← require (as_array (get (js "allergens") fields)) invalid_contract
  allergens ← map_ok parse_string values
  display_order ← parse_display_order (get (js "display_order") fields)
  is_available ← parse_boolean (get (js "is_available") fields)
  ok (record {
    allergens = allergens;
    currency = currency;
    description = description;
    display_order = display_order;
    id = id;
    image_url = image_url;
    is_available = is_available;
    name = name;
    price_amount = price;
  })

unfoldable pub parse_menu_category : Value → Outcome ApiRequestError MenuCategory
parse_menu_category value = do
  fields ← exact_record category_keys value invalid_contract
  id ← matching_string (matches uuid_pattern) (get (js "id") fields) invalid_contract
  name ← matching_string is_name (get (js "name") fields) invalid_contract
  description ← parse_nullable_string (get (js "description") fields)
  display_order ← parse_display_order (get (js "display_order") fields)
  values ← require (as_array (get (js "items") fields)) invalid_contract
  guard_ok (not (length values == 0)) invalid_contract
  items ← map_ok parse_menu_item values
  ok (record {
    description = description;
    display_order = display_order;
    id = id;
    items = items;
    name = name;
  })

unfoldable pub parse_menu_response : Value → Outcome ApiRequestError MenuResponse
parse_menu_response value = do
  fields ← exact_record (js "categories" ∷ []) value invalid_contract
  values ← require (as_array (get (js "categories") fields)) invalid_contract
  categories ← map_ok parse_menu_category values
  ok (record { categories = categories })

unfoldable pub fetch_menu : World → Sent MenuResponse
fetch_menu w = and_then (request_json w (js "/api/v1/menu") none) parse_menu_response
