-- ===== src/Api/Tests.antt =====
-- The theorems on the HTTP clients, at concrete builds and requests.
use restaurant_ordering_anal.Auth.Navigation.{starts_with}
use restaurant_ordering_anal.Base.{
  ◌≡◌, ◌≤◌, ◌<◌, ◌++◌, refl, true, false, any, [], ◌∷◌, none, some, JsString, js, ok, ℕ, str_eq,
  All,
}
use restaurant_ordering_anal.Js.{nat, is_safe_integer, num_le, num_gt, boolean}
use restaurant_ordering_anal.Js.Pattern.{
  is_space, trim, strip_prefix, split_on, digit, matches, order_character, order_number_pattern,
  trim_end, trim_start,
}
use restaurant_ordering_anal.Fixtures.{development, secure_url, answering}
use restaurant_ordering_anal.Api.Config.{
  Env, Url, max_request_timeout_ms, drop_slashes, build_api_url, resolve_api_request_timeout_ms,
  read_api_base_url, is_public_https_origin, is_loopback_hostname, decimal, after_https,
  decimal_from, is_positive_numeral,
}
use restaurant_ordering_anal.Api.Exchange.{
  Request, rejected, is_header_value, World, request_json, request_post_json,
}
use restaurant_ordering_anal.Api.Configured.{
  resolve_api_request_timeout_ms_bounds, requests_public, GoesPublic,
}
use restaurant_ordering_anal.Api.Authenticated.{
  path_validation_origin, authenticated_request, validate_authenticated_path,
  is_allowed_account_orders_path, are_segments, match_segment, create_bearer_headers,
}
use restaurant_ordering_anal.Api.Allowed.{Allowed, authenticated_request_sound}

resolve_api_request_timeout_ms_bounds_example :
    (n : ℕ) × (nat 500 ≡ nat n) × (0 < n) × (n ≤ max_request_timeout_ms)
unfolding resolve_api_request_timeout_ms is_safe_integer num_le num_gt
resolve_api_request_timeout_ms_bounds_example =
    resolve_api_request_timeout_ms_bounds development (some (nat 500)) (nat 500) refl

abbrev deployed : Env
deployed = record {
  prod = true;
  mode = js "production";
  vite_api_base_url = some (js "https://example.com/");
  vite_api_timeout_ms = none;
}

-- Every request is answered by a rejection.
abbrev deployed_world : World
deployed_world = record {
  env = deployed;
  parse_url = λ s. some secure_url;
  fetch = λ r. record { reply = rejected; timeout_triggered = false; signal_aborted = false };
}

requests_public_example :
    All
      (GoesPublic deployed_world (js "/api/v1/menu"))
      (request_json deployed_world (js "/api/v1/menu") none).0
    × All
        (GoesPublic deployed_world (js "/api/v1/menu"))
        (request_post_json deployed_world (js "/api/v1/menu") (boolean true) []).0
unfolding str_eq
requests_public_example =
    requests_public deployed_world (js "/api/v1/menu") none [] (boolean true) refl

abbrev page_path : JsString
page_path = js "/api/v1/account/orders?limit=10"

abbrev page_url : Url
page_url = record secure_url {
  origin = path_validation_origin;
  pathname = js "/api/v1/account/orders";
  search = js "?limit=10";
}

abbrev page_request : Request
page_request = record {
  method = js "GET";
  url = page_path;
  headers =
      (js "Accept", js "application/json") ∷ (js "Authorization", js "Bearer " ++ js "token") ∷ [];
  body = none;
}

authenticated_request_sound_example :
    Allowed page_path
    × (page_request.method ≡ js "GET")
    × (build_api_url development (answering rejected).parse_url page_path ≡ ok page_request.url)
    × (page_request.headers
        ≡ (js "Accept", js "application/json")
          ∷ (js "Authorization", js "Bearer " ++ js "token")
          ∷ [])
    × (any is_space (js "token") ≡ false)
unfolding authenticated_request validate_authenticated_path starts_with str_eq
    is_allowed_account_orders_path strip_prefix are_segments split_on match_segment digit decimal
    create_bearer_headers trim is_space resolve_api_request_timeout_ms build_api_url
    read_api_base_url after_https decimal_from drop_slashes is_loopback_hostname is_positive_numeral
    is_public_https_origin is_safe_integer num_gt num_le matches order_character
    order_number_pattern trim_end trim_start is_header_value
authenticated_request_sound_example =
    authenticated_request_sound (answering rejected) (λ s. some page_url) page_path (js "token")
      none page_request refl
