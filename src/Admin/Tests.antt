-- ===== src/Admin/Tests.antt =====
-- The theorems on the administration, at concrete requests and headers.
use restaurant_ordering_anal.Orders.Fields.{map_ok}
use restaurant_ordering_anal.Account.Pages.{digits_from, integer_in, numeral}
use restaurant_ordering_anal.Orders.Checkout.{ends_aware, is_aware_datetime}
use restaurant_ordering_anal.Api.Authenticated.{parse_retry_after}
use restaurant_ordering_anal.Auth.Navigation.{starts_with}
use restaurant_ordering_anal.Base.{
  ◌≡◌, ◌≤◌, refl, true, Option, none, some, JsString, js, ok, All, length, str_eq, ℕ, ◌∷◌, [],
}
use restaurant_ordering_anal.Js.{
  Value, string, object, field, end, is_safe_integer, num_gt, num_le, get, null, boolean, number,
  array, cons, nil, nat, num_lt,
}
use restaurant_ordering_anal.Js.Pattern.{
  matches, uuid_pattern, trim_start, is_space, trim, hex, digit, trim_end,
}
use restaurant_ordering_anal.Fixtures.{secure_url, answering, soup}
use restaurant_ordering_anal.Api.Config.{
  Url, resolve_api_request_timeout_ms, build_api_url, read_api_base_url, after_https, decimal,
  decimal_from, drop_slashes, is_loopback_hostname, is_positive_numeral, is_public_https_origin,
}
use restaurant_ordering_anal.Api.Exchange.{World, responded, failure, is_header_value}
use restaurant_ordering_anal.Admin.Client.{
  get_method, patch_method, admin_path_validation_origin, admin_request_json, create_admin_headers,
  validate_admin_path, settle_admin, header_value,
}
use restaurant_ordering_anal.Admin.Users.{
  ordinary_admin, AdminUserRoleUpdateResponse, role_path, update_admin_user_role,
  parse_role_update_response, has_own_keys, is_user_email, read_ordinary_role,
}
use restaurant_ordering_anal.Admin.Downloads.{
  orders, get_csv_download_filename, quoted_filename, match_parameter, strip_letters, match_later,
  until_quote, is_safe_csv_filename, has_dots, fits_safe_pattern, ends_csv,
}
use restaurant_ordering_anal.Admin.Filenames.{IsFilename, get_csv_download_filename_sound}
use restaurant_ordering_anal.Admin.Categories.{
  AdminCategory, fetch_all_admin_categories, fetch_pages, fetch_admin_categories,
  category_page_path, checked_category_page, parse_category_list, parse_category,
  versioned_uuid_pattern,
}
use restaurant_ordering_anal.Admin.Complete.{
  Pages, fetch_all_admin_categories-length, fetch_all_admin_categories-Pages,
}
use restaurant_ordering_anal.Admin.Sent.{IsAdminRequest, admin_request_json_sound}
use restaurant_ordering_anal.Admin.Managed.{IsUpdate, update_admin_user_role_sound}

abbrev parse_path : JsString → Option Url
parse_path path =
    some (record secure_url { origin = admin_path_validation_origin; pathname = path })

abbrev lower : JsString → JsString
lower s = s

abbrev update_value : Value
update_value = object (
    field (js "email") (string (js "waiter@example.com")) (
      field (js "id") (string soup) (
        field (js "role") (string (js "admin"))
          (field (js "updated_at") (string (js "2026-01-02T10:00:00Z")) end))))

abbrev update : AdminUserRoleUpdateResponse
update = record {
  email = js "waiter@example.com";
  id = soup;
  role = ordinary_admin;
  updated_at = js "2026-01-02T10:00:00Z";
}

abbrev api : World
api = answering (responded 200 none (some update_value))

updated :
    (update_admin_user_role api parse_path
      (λ s. true)
      lower
      soup
      (js "session-token")
      ordinary_admin).1
    ≡ ok update
unfolding update_admin_user_role matches uuid_pattern hex admin_request_json create_admin_headers
    trim is_space resolve_api_request_timeout_ms validate_admin_path starts_with role_path str_eq
    build_api_url read_api_base_url settle_admin parse_role_update_response has_own_keys
    is_user_email parse_retry_after after_https decimal decimal_from drop_slashes
    is_loopback_hostname is_positive_numeral is_public_https_origin failure is_safe_integer num_gt
    num_le digit trim_end trim_start get ends_aware is_aware_datetime is_header_value header_value
    read_ordinary_role
updated = refl

update_admin_user_role_sound_example :
    (matches uuid_pattern soup ≡ true)
    × IsUpdate (λ s. true) lower soup ordinary_admin update
    × All
        (IsAdminRequest api parse_path (role_path soup) patch_method)
        (update_admin_user_role api parse_path
          (λ s. true)
          lower
          soup
          (js "session-token")
          ordinary_admin).0
    × (length
          (update_admin_user_role api parse_path
            (λ s. true)
            lower
            soup
            (js "session-token")
            ordinary_admin).0
        ≤ 1)
update_admin_user_role_sound_example =
    update_admin_user_role_sound (λ s. true) lower api parse_path soup (js "session-token")
      ordinary_admin update updated

admin_request_json_sound_example :
    All
      (IsAdminRequest api parse_path (js "/api/v1/admin/orders") get_method)
      (admin_request_json api parse_path
        (js "/api/v1/admin/orders")
        get_method
        (some (js "session-token"))
        none
        none).0
    × (length
          (admin_request_json api parse_path
            (js "/api/v1/admin/orders")
            get_method
            (some (js "session-token"))
            none
            none).0
        ≤ 1)
admin_request_json_sound_example =
    admin_request_json_sound api parse_path (js "/api/v1/admin/orders") get_method
      (some (js "session-token")) none none

named :
    get_csv_download_filename orders (some (js "attachment; filename=\"may.CSV\"; size=1"))
    ≡ js "may.CSV"
unfolding get_csv_download_filename quoted_filename match_parameter strip_letters trim_start
    is_space match_later until_quote is_safe_csv_filename str_eq trim has_dots starts_with
    fits_safe_pattern ends_csv matches
named = refl

refused :
    get_csv_download_filename orders (some (js "attachment; filename=\"../may.csv\""))
    ≡ js "orders.csv"
unfolding get_csv_download_filename quoted_filename match_parameter strip_letters trim_start
    is_space match_later until_quote is_safe_csv_filename str_eq trim has_dots starts_with
refused = refl

get_csv_download_filename_sound_example :
    IsFilename
      (get_csv_download_filename orders (some (js "attachment; filename=\"may.CSV\"; size=1")))
get_csv_download_filename_sound_example =
    get_csv_download_filename_sound orders (some (js "attachment; filename=\"may.CSV\"; size=1"))

abbrev soups : AdminCategory
soups = record {
  created_at = js "2026-01-02T10:00:00Z";
  description = none;
  display_order = 1;
  id = soup;
  is_active = true;
  name = js "Soups";
  updated_at = js "2026-01-02T10:00:00Z";
}

abbrev soups_value : Value
soups_value = object (
    field (js "id") (string soup) (
      field (js "name") (string (js "Soups")) (
        field (js "description") null (
          field (js "display_order") (number (nat 1)) (
            field (js "is_active") (boolean true) (
              field (js "created_at") (string (js "2026-01-02T10:00:00Z"))
                (field (js "updated_at") (string (js "2026-01-02T10:00:00Z")) end)))))))

-- Of two categories, a page holds one.
abbrev page_value : ℕ → Value
page_value offset = object (
    field (js "items") (array (cons soups_value nil)) (
      field (js "total") (number (nat 2))
        (field (js "limit") (number (nat 100)) (field (js "offset") (number (nat offset)) end))))

abbrev pages : ℕ → World
pages page = answering (responded 200 none (some (page_value page)))

two_pages :
    (fetch_all_admin_categories parse_path (λ s. true) (js "session-token") pages).1
    ≡ ok (soups ∷ soups ∷ [])
unfolding fetch_all_admin_categories fetch_pages fetch_admin_categories admin_request_json
    create_admin_headers trim is_space resolve_api_request_timeout_ms validate_admin_path
    starts_with category_page_path str_eq build_api_url read_api_base_url settle_admin
    checked_category_page parse_category_list digits_from integer_in numeral parse_category
    versioned_uuid_pattern has_own_keys parse_retry_after after_https decimal decimal_from
    drop_slashes is_loopback_hostname is_positive_numeral is_public_https_origin failure
    is_safe_integer num_gt num_le num_lt digit hex matches trim_end trim_start get ends_aware
    is_aware_datetime map_ok is_header_value header_value
two_pages = refl

fetch_all_admin_categories-length_example :
    length (fetch_all_admin_categories parse_path (λ s. true) (js "session-token") pages).0 ≤ 100
fetch_all_admin_categories-length_example =
    fetch_all_admin_categories-length parse_path (λ s. true) (js "session-token") pages

fetch_all_admin_categories-Pages_example :
    Pages parse_path (λ s. true) (js "session-token") pages 0 0 (soups ∷ soups ∷ [])
fetch_all_admin_categories-Pages_example =
    fetch_all_admin_categories-Pages parse_path (λ s. true) (js "session-token") pages
      (soups ∷ soups ∷ []) two_pages
