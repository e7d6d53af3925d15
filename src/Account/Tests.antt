-- ===== src/Account/Tests.antt =====
-- The theorems on personal orders, at concrete pages.
use restaurant_ordering_anal.Orders.Fields.{map_ok}
use restaurant_ordering_anal.Orders.Checkout.{ends_aware, is_aware_datetime}
use restaurant_ordering_anal.Js.Keys.{has_exact_keys}
use restaurant_ordering_anal.Js.Pattern.{
  strip_prefix, split_on, currency_pattern, digit, is_space, matches, order_character,
  order_number_pattern, trim, trim_end, trim_start, upper,
}
use restaurant_ordering_anal.Auth.Navigation.{starts_with}
use restaurant_ordering_anal.Base.{
  ◌≡◌, ◌≤◌, ℕ, refl, true, [], ◌∷◌, Option, none, some, JsString, js, ok, arith, str_eq,
}
use restaurant_ordering_anal.Js.{
  nat, Value, cons, nil, string, number, array, object, field, end, is_safe_integer, num_lt, num_gt,
  num_eq, num_le, get,
}
use restaurant_ordering_anal.Fixtures.{secure_url, answering, order_number}
use restaurant_ordering_anal.Api.Config.{
  Url, after_https, build_api_url, decimal, decimal_from, drop_slashes, is_loopback_hostname,
  is_positive_numeral, is_public_https_origin, read_api_base_url, resolve_api_request_timeout_ms,
}
use restaurant_ordering_anal.Api.Exchange.{World, Request, responded, failure, is_header_value}
use restaurant_ordering_anal.Api.Authenticated.{
  path_validation_origin, account_orders_path, validate_authenticated_path, authenticated_request,
  authenticated_request_json, is_allowed_account_orders_path, are_segments, create_bearer_headers,
  match_segment, parse_retry_after, settle_authenticated,
}
use restaurant_ordering_anal.Orders.Order.{created, takeaway, read_order_type, read_status}
use restaurant_ordering_anal.Account.Pages.{
  numeral, AccountOrdersResponse, page_path, fetch_account_orders, or_default, default_limit,
  default_offset, validate_pagination, integer_in, digits_from, parse_list_item,
  parse_list_response,
}
use restaurant_ordering_anal.Account.Asked.{validate-page_path}
use restaurant_ordering_anal.Account.Listed.{IsPage, fetch_account_orders_sound}

abbrev page_url : Url
page_url = record secure_url {
  origin = path_validation_origin;
  pathname = account_orders_path;
  search = js "?limit=20&offset=40";
}

abbrev parse_path : JsString → Option Url
parse_path path = some page_url

validate-page_path_example : validate_authenticated_path parse_path (page_path 20 40) ≡ ok tt
validate-page_path_example =
    validate-page_path parse_path page_url 20 40 (omega arith) (omega arith) (omega arith) refl refl
      refl refl

abbrev order_value : Value
order_value = object (
    field (js "created_at") (string (js "2026-01-02T10:00:00Z")) (
      field (js "currency") (string (js "PLN")) (
        field (js "order_type") (string (js "takeaway")) (
          field (js "public_order_number") (string order_number) (
            field (js "status") (string (js "created")) (
              field (js "total_amount") (number (nat 2400))
                (field (js "updated_at") (string (js "2026-01-02T10:00:00Z")) end)))))))

abbrev page_value : Value
page_value = object (
    field (js "items") (array (cons order_value nil)) (
      field (js "limit") (number (nat 20))
        (field (js "offset") (number (nat 40)) (field (js "total") (number (nat 41)) end))))

abbrev page : AccountOrdersResponse
page = record {
  items =
      record {
        created_at = js "2026-01-02T10:00:00Z";
        currency = js "PLN";
        order_type = takeaway;
        public_order_number = order_number;
        status = created;
        total_amount = nat 2400;
        updated_at = js "2026-01-02T10:00:00Z";
      }
      ∷ [];
  limit = 20;
  offset = 40;
  total = 41;
}

abbrev api : World
api = answering (responded 200 none (some page_value))

fetched :
    (fetch_account_orders api parse_path
      (λ s. true)
      (js "session-token")
      (some (nat 20))
      (some (nat 40))).1
    ≡ ok page
unfolding fetch_account_orders validate_pagination integer_in is_safe_integer num_lt num_gt
    authenticated_request_json authenticated_request validate_authenticated_path page_path
    starts_with numeral str_eq is_allowed_account_orders_path strip_prefix are_segments split_on
    digits_from parse_list_item parse_list_response create_bearer_headers match_segment
    parse_retry_after settle_authenticated after_https build_api_url decimal decimal_from
    drop_slashes is_loopback_hostname is_positive_numeral is_public_https_origin read_api_base_url
    resolve_api_request_timeout_ms failure has_exact_keys num_eq num_le currency_pattern digit
    is_space matches order_character order_number_pattern trim trim_end trim_start upper get
    ends_aware is_aware_datetime map_ok read_order_type read_status is_header_value
fetched = refl

fetch_account_orders_sound_example :
    (l : ℕ) × (o : ℕ) × ((or_default default_limit (some (nat 20)) ≡ nat l)
      × (or_default default_offset (some (nat 40)) ≡ nat o)
      × (1 ≤ l)
      × (l ≤ 100)
      × IsPage (λ s. true) l o page
      × ((r : Request) × ((authenticated_request api parse_path
                (page_path l o)
                (js "session-token")
                none
              ≡ ok r)
            × ((fetch_account_orders api parse_path
                  (λ s. true)
                  (js "session-token")
                  (some (nat 20))
                  (some (nat 40))).0
                ≡ r ∷ []))))
fetch_account_orders_sound_example =
    fetch_account_orders_sound (λ s. true) api parse_path (js "session-token") (some (nat 20))
      (some (nat 40)) page fetched
