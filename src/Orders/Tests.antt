-- ===== src/Orders/Tests.antt =====
-- The theorems on the customer's API, at concrete requests and answers.
use restaurant_ordering_anal.Js.{
  is_safe_integer, boolean, nat, Value, string, number, array, object, cons, nil, field, end, null,
  num_gt, num_le, get, is_integer, num_lt, num_eq,
}
use restaurant_ordering_anal.Base.{
  All, ◌≡◌, refl, true, List, [], ◌∷◌, Option, none, some, JsString, js, ok, ◌≢◌, ◌⊎◌, str_eq,
}
use restaurant_ordering_anal.Orders.Menu.{
  MenuItem, MenuResponse, fetch_menu, parse_menu_response, parse_menu_category, parse_display_order,
  parse_menu_item,
}
use restaurant_ordering_anal.Orders.Menus.{IsMenuCategory, fetch_menu_sound}
use restaurant_ordering_anal.Js.Keys.{has_exact_keys}
use restaurant_ordering_anal.Auth.Navigation.{starts_with}
use restaurant_ordering_anal.Js.Pattern.{
  matches, order_number_pattern, uuid_v4_pattern, order_character, hex_lower, trim, is_space, digit,
  trim_end, trim_start, uuid_pattern, hex, currency_pattern, upper,
}
use restaurant_ordering_anal.Fixtures.{soup, order_number, answering}
use restaurant_ordering_anal.Api.Config.{
  build_api_url, resolve_api_request_timeout_ms, read_api_base_url, after_https, decimal,
  decimal_from, drop_slashes, is_loopback_hostname, is_positive_numeral, is_public_https_origin,
}
use restaurant_ordering_anal.Api.Exchange.{
  World, responded, append_optional_credentials, is_credential, failure, request_post_json,
  settle_json, request_json, is_header_value,
}
use restaurant_ordering_anal.Orders.Fields.{
  QuoteLine, QuoteItemRequest, validate_quote_items, validate_items_from, answers, map_ok,
  parse_line, parse_lines, parse_positive_amount, parse_quantity, set_size,
}
use restaurant_ordering_anal.Orders.Quote.{
  QuoteResponse, quote_order, encode_request_items, json_headers, checked_quote,
  parse_quote_response,
}
use restaurant_ordering_anal.Orders.Order.{
  OrderCreateRequest, for_table, OrderCreateResponse, create_order, encode_order, request_items,
  request_type, request_table, dine_in, takeaway, created, order_headers, checked_order,
  parse_order_create_response, parse_order_type, parse_status, parse_table_number, read_order_type,
  read_status,
}
use restaurant_ordering_anal.Orders.Status.{OrderStatusResponse, parse_order_status_response}
use restaurant_ordering_anal.Orders.Checkout.{
  CheckoutSessionResponse, pending, create_checkout_session, checkout_path, checkout_headers,
  settle_checkout, parse_checkout_session_response, ends_aware, is_aware_datetime,
  is_safe_checkout_url, parse_positive_retry_after,
}
use restaurant_ordering_anal.Orders.Lines.{AreRequestItems, Answers}
use restaurant_ordering_anal.Orders.Quoted.{PostsOne, IsQuote, quote_order_sound}
use restaurant_ordering_anal.Orders.Created.{IsOrder, order_headers_of, create_order_sound}
use restaurant_ordering_anal.Orders.Paid.{
  IsSession, checkout_headers_of, create_checkout_session_sound,
}

abbrev asked : List QuoteItemRequest
asked = record { menu_item_id = soup; quantity = nat 2 } ∷ []

abbrev line : QuoteLine
line = record {
  line_total_amount = nat 2400;
  menu_item_id = soup;
  name = js "Soup";
  quantity = nat 2;
  unit_price_amount = nat 1200;
}

abbrev lines : Value
lines = array (
    cons
      (object (
        field (js "line_total_amount") (number (nat 2400)) (
          field (js "menu_item_id") (string soup) (
            field (js "name") (string (js "Soup")) (
              field (js "quantity") (number (nat 2))
                (field (js "unit_price_amount") (number (nat 1200)) end))))))
      nil)

-- An API that answers every request with this value.
abbrev api : Value → World
api v = answering (responded 200 none (some v))

abbrev quote_value : Value
quote_value = object (
    field (js "currency") (string (js "PLN")) (
      field (js "items") lines (
        field (js "subtotal_amount") (number (nat 2400))
          (field (js "total_amount") (number (nat 2400)) end))))

abbrev quote : QuoteResponse
quote = record {
  currency = js "PLN";
  items = line ∷ [];
  subtotal_amount = nat 2400;
  total_amount = nat 2400;
}

quote_order-answer : (quote_order (api quote_value) asked).1 ≡ ok quote
unfolding quote_order validate_quote_items validate_items_from matches uuid_pattern hex is_integer
    num_lt num_gt request_post_json resolve_api_request_timeout_ms build_api_url starts_with
    read_api_base_url str_eq settle_json checked_quote parse_quote_response after_https decimal
    decimal_from drop_slashes is_loopback_hostname is_positive_numeral is_public_https_origin
    failure has_exact_keys is_safe_integer num_eq num_le currency_pattern digit is_space trim
    trim_end trim_start upper get answers map_ok parse_line parse_lines parse_positive_amount
    parse_quantity set_size
quote_order-answer = refl

quote_order_sound_example :
    AreRequestItems asked
    × PostsOne
        (api quote_value)
        (js "/api/v1/orders/quote")
        (object (field (js "items") (encode_request_items asked) end))
        json_headers
        (quote_order (api quote_value) asked).0
    × IsQuote quote
    × Answers quote.items asked
quote_order_sound_example = quote_order_sound (api quote_value) asked quote quote_order-answer

abbrev order_value : Value
order_value = object (
    field (js "currency") (string (js "PLN")) (
      field (js "items") lines (
        field (js "order_access_token") (string (js "guest-token")) (
          field (js "order_type") (string (js "dine_in")) (
            field (js "public_order_number") (string order_number) (
              field (js "status") (string (js "created")) (
                field (js "subtotal_amount") (number (nat 2400)) (
                  field (js "table_number") (number (nat 7))
                    (field (js "total_amount") (number (nat 2400)) end)))))))))

abbrev order : OrderCreateResponse
order = record {
  currency = js "PLN";
  items = line ∷ [];
  order_access_token = js "guest-token";
  order_type = dine_in;
  public_order_number = order_number;
  status = created;
  subtotal_amount = nat 2400;
  table_number = some (nat 7);
  total_amount = nat 2400;
}

abbrev at_table : OrderCreateRequest
at_table = for_table asked (nat 7)

create_order-answer : (create_order (api order_value) at_table none).1 ≡ ok order
unfolding create_order order_headers validate_quote_items validate_items_from matches uuid_pattern
    hex is_integer num_lt num_gt is_safe_integer num_le append_optional_credentials
    request_post_json resolve_api_request_timeout_ms build_api_url starts_with read_api_base_url
    after_https decimal decimal_from drop_slashes is_loopback_hostname is_positive_numeral
    is_public_https_origin failure is_credential settle_json str_eq has_exact_keys num_eq
    currency_pattern digit is_space order_character order_number_pattern trim trim_end trim_start
    upper get answers map_ok parse_line parse_lines parse_positive_amount parse_quantity set_size
    checked_order parse_order_create_response parse_order_type parse_status parse_table_number
    read_order_type read_status
create_order-answer = refl

create_order_sound_example :
    AreRequestItems (request_items at_table)
    × PostsOne
        (api order_value)
        (js "/api/v1/orders")
        (encode_order at_table)
        (order_headers_of none)
        (create_order (api order_value) at_table none).0
    × IsOrder order
    × (order.order_type ≡ request_type at_table)
    × (order.table_number ≡ request_table at_table)
    × Answers order.items (request_items at_table)
create_order_sound_example =
    create_order_sound (api order_value) at_table none order create_order-answer

abbrev session_value : Value
session_value = object (
    field (js "checkout_url") (string (js "https://example.com/pay")) (
      field (js "expires_at") (string (js "2026-01-01T00:00:00Z")) (
        field (js "payment_status") (string (js "pending"))
          (field (js "public_order_number") (string order_number) end))))

abbrev session : CheckoutSessionResponse
session = pending (js "https://example.com/pay") (js "2026-01-01T00:00:00Z") order_number

abbrev paying : World
paying = api session_value

create_checkout_session-answer :
    (create_checkout_session paying (λ s. true) order_number soup none (some (js "guest-token"))).1
    ≡ ok session
unfolding create_checkout_session checkout_headers matches order_number_pattern order_character
    uuid_v4_pattern hex_lower append_optional_credentials is_credential trim is_space
    resolve_api_request_timeout_ms build_api_url starts_with read_api_base_url str_eq
    settle_checkout parse_checkout_session_response after_https decimal decimal_from drop_slashes
    is_loopback_hostname is_positive_numeral is_public_https_origin failure has_exact_keys
    is_safe_integer num_gt num_le digit trim_end trim_start get ends_aware is_aware_datetime
    is_safe_checkout_url parse_positive_retry_after is_header_value
create_checkout_session-answer = refl

create_checkout_session_sound_example :
    (matches order_number_pattern order_number ≡ true)
    × (matches uuid_v4_pattern soup ≡ true)
    × ((◌≢◌ {A = Option JsString} none none) ⊎ (some (js "guest-token") ≢ none))
    × IsSession paying.parse_url (λ s. true) order_number session
    × ((url : JsString) × (build_api_url paying.env paying.parse_url (checkout_path order_number)
          ≡ ok url)
        × ((create_checkout_session paying
              (λ s. true)
              order_number
              soup
              none
              (some (js "guest-token"))).0
            ≡ record {
              method = js "POST";
              url = url;
              headers = checkout_headers_of soup none (some (js "guest-token"));
              body = none;
            }
              ∷ []))
create_checkout_session_sound_example =
    create_checkout_session_sound paying (λ s. true) order_number soup none
      (some (js "guest-token")) session create_checkout_session-answer

abbrev status_value : Value
status_value = object (
    field (js "created_at") (string (js "2026-01-01T00:00:00Z")) (
      field (js "currency") (string (js "PLN")) (
        field (js "items") lines (
          field (js "order_type") (string (js "takeaway")) (
            field (js "public_order_number") (string order_number) (
              field (js "status") (string (js "created")) (
                field (js "subtotal_amount") (number (nat 2400)) (
                  field (js "table_number") null (
                    field (js "total_amount") (number (nat 2400))
                      (field (js "updated_at") (string (js "2026-01-01T00:00:00Z")) end))))))))))

abbrev snapshot : OrderStatusResponse
snapshot = record {
  created_at = js "2026-01-01T00:00:00Z";
  currency = js "PLN";
  items = line ∷ [];
  order_type = takeaway;
  public_order_number = order_number;
  status = created;
  subtotal_amount = nat 2400;
  table_number = none;
  total_amount = nat 2400;
  updated_at = js "2026-01-01T00:00:00Z";
}

parse_order_status_response-answer :
    parse_order_status_response (λ s. true) order_number status_value ≡ ok snapshot
unfolding parse_order_status_response has_exact_keys str_eq get parse_status read_status
    parse_order_type read_order_type matches currency_pattern upper parse_positive_amount
    is_safe_integer num_le is_aware_datetime ends_aware digit parse_table_number is_integer num_gt
    num_lt hex is_space trim trim_end trim_start uuid_pattern map_ok parse_line parse_lines
    parse_quantity set_size
parse_order_status_response-answer = refl

abbrev dish_value : Value
dish_value = object (
    field (js "allergens") (array nil) (
      field (js "currency") (string (js "PLN")) (
        field (js "description") null (
          field (js "display_order") (number (nat 0)) (
            field (js "id") (string soup) (
              field (js "image_url") null (
                field (js "is_available") (boolean true) (
                  field (js "name") (string (js "Soup"))
                    (field (js "price_amount") (number (nat 1200)) end)))))))))

abbrev dish : MenuItem
dish = record {
  allergens = [];
  currency = js "PLN";
  description = none;
  display_order = nat 0;
  id = soup;
  image_url = none;
  is_available = true;
  name = js "Soup";
  price_amount = nat 1200;
}

abbrev menu_value : Value
menu_value = object (
    field (js "categories")
      (array (
        cons
          (object (
            field (js "description") null (
              field (js "display_order") (number (nat 0)) (
                field (js "id") (string soup) (
                  field (js "items") (array (cons dish_value nil))
                    (field (js "name") (string (js "Soups")) end))))))
          nil))
      end)

abbrev menu : MenuResponse
menu = record {
  categories =
      record {
        description = none;
        display_order = nat 0;
        id = soup;
        items = dish ∷ [];
        name = js "Soups";
      }
      ∷ [];
}

fetch_menu-answer : (fetch_menu (api menu_value)).1 ≡ ok menu
unfolding fetch_menu request_json resolve_api_request_timeout_ms build_api_url starts_with
    read_api_base_url str_eq settle_json parse_menu_response has_exact_keys get map_ok
    parse_menu_category matches uuid_pattern hex parse_display_order is_safe_integer after_https
    decimal decimal_from drop_slashes is_loopback_hostname is_positive_numeral
    is_public_https_origin failure num_gt num_le num_lt currency_pattern digit is_space trim
    trim_end trim_start upper parse_positive_amount parse_menu_item
fetch_menu-answer = refl

fetch_menu_sound_example :
    All IsMenuCategory menu.categories
    × ((url : JsString) × (build_api_url
            (api menu_value).env
            (api menu_value).parse_url
            (js "/api/v1/menu")
          ≡ ok url)
        × ((fetch_menu (api menu_value)).0
            ≡ record {
              method = js "GET";
              url = url;
              headers = (js "Accept", js "application/json") ∷ [];
              body = none;
            }
              ∷ []))
fetch_menu_sound_example = fetch_menu_sound (api menu_value) menu fetch_menu-answer
