-- ===== src/Session/Tests.antt =====
-- The theorems on the session, at a page that is opened with a stored token.
use restaurant_ordering_anal.Auth.Markers.{
  clear_demo_session_marker, is_marker, load_demo_session_marker, parse_demo_session_marker,
  save_demo_session_marker,
}
use restaurant_ordering_anal.Session.Outcomes.{
  classify_credential_error, classify_demo_session_error,
}
use restaurant_ordering_anal.Session.Provider.{
  start_validation, start_effect, validate_current_session, begin_request, accept_token,
  accept_user, clean_up, clear_session, establish_credentials, fail_validation,
  invalidate_session_if_current, refresh_current_user, reject_token, retry_session, suspend_session,
}
use restaurant_ordering_anal.Js.Keys.{has_exact_keys}
use restaurant_ordering_anal.Js.Pattern.{
  trim, is_space, matches, digit, hex_lower, order_character, order_number_pattern, split_on,
  strip_prefix, trim_end, trim_start,
}
use restaurant_ordering_anal.Base.{
  ok, one_of, ◌≡◌, refl, true, false, List, [], ◌∷◌, Option, none, some, JsString, js, str_eq,
  if◌then◌else◌,
}
use restaurant_ordering_anal.Js.{
  Value, string, boolean, object, field, end, get, is_safe_integer, num_gt, num_le, get_item,
  num_eq, remove_item, set_item,
}
use restaurant_ordering_anal.Fixtures.{plain_json, tab, secure_url, answering}
use restaurant_ordering_anal.Api.Config.{
  Url, resolve_api_request_timeout_ms, build_api_url, read_api_base_url, after_https, decimal,
  decimal_from, drop_slashes, is_loopback_hostname, is_positive_numeral, is_public_https_origin,
}
use restaurant_ordering_anal.Api.Exchange.{World, responded, rejected, failure, is_header_value}
use restaurant_ordering_anal.Api.Authenticated.{
  path_validation_origin, authenticated_request_json, authenticated_request,
  validate_authenticated_path, create_bearer_headers, settle_authenticated, are_segments,
  is_allowed_account_orders_path, match_segment, parse_retry_after,
}
use restaurant_ordering_anal.Auth.Tokens.{
  AuthState, encode_token, is_access_token, load_auth_token, parse_stored_token, parse_token,
  clear_auth_token, clear_legacy_auth_token, load_legacy_auth_token, remove_storage_key,
  save_auth_token,
}
use restaurant_ordering_anal.Auth.Memory.{IsSafe}
use restaurant_ordering_anal.Auth.Navigation.{
  super_admin, resolve_auth_destination, is_customer, static_super_admin_paths, starts_with,
  is_admin_continuation, parse_safe_next, contains_unsafe_syntax, is_account_order_detail_path,
  is_order_path, admin_next, is_admin_order_detail_path,
}
use restaurant_ordering_anal.Session.Users.{
  AuthUser, fetch_current_user, parse_auth_user, read_auth_role, uuid_lower_pattern,
  parse_auth_token_response, request_auth_token, settle_auth_token,
}
use restaurant_ordering_anal.Session.State.{Provider, start, take_task, abort_controller}
use restaurant_ordering_anal.Session.Steps.{
  Event, mounted, validation_due, logout, settled, with_signal, step, run, settle_job,
}
use restaurant_ordering_anal.Session.Sound.{IsSound}
use restaurant_ordering_anal.Session.Reached.{run-IsSound}
use restaurant_ordering_anal.Session.Signed.{IsSession, start-IsSound, run-IsSession}
use restaurant_ordering_anal.Session.Logout.{IsOut, run-logout}
use restaurant_ordering_anal.Session.Views.{view, in_as}
use restaurant_ordering_anal.Session.Spec.{abstract, spec_run}
use restaurant_ordering_anal.Session.Refined.{start-refines}
use restaurant_ordering_anal.Session.Confirmed.{Confirms, start-Confirms}
use restaurant_ordering_anal.Session.Checked.{is_checking}
use restaurant_ordering_anal.Session.Ends.{finish, mounted_start, start_ends}
use restaurant_ordering_anal.Session.Guards.{
  administrator_route_guard, super_admin_route_guard, outlet,
}
use restaurant_ordering_anal.Session.Guarded.{
  signed_in_as, administrator_sound, resolve_auth_destination-outlet,
}

abbrev token : JsString
token = js "session-token"

abbrev stored : AuthState Value
stored = record {
  auth_memory_token = none;
  demo_session_memory = none;
  legacy_memory_token = none;
  session = tab (some (encode_token token));
}

stored-IsSafe : IsSafe stored
stored-IsSafe = record { auth = tt; legacy = tt }

abbrev chef : AuthUser
chef = record {
  email = js "chef@example.com";
  id = js "0f0f0f0f-0000-4000-8000-00000000000a";
  role = super_admin;
}

abbrev chef_value : Value
chef_value = object (
    field (js "email") (string (js "chef@example.com")) (
      field (js "id") (string (js "0f0f0f0f-0000-4000-8000-00000000000a")) (
        field (js "is_active") (boolean true) (field (js "role") (string (js "super_admin")) end))))

abbrev api : World
api = answering (responded 200 none (some chef_value))

abbrev parse_path : JsString → Option Url
parse_path path = some (record secure_url { origin = path_validation_origin; pathname = path })

abbrev lower : JsString → JsString
lower s = s

abbrev opening : List Event
opening = mounted ∷ validation_due ∷ settled 0 api ∷ []

abbrev opened : Provider Value
opened = run plain_json lower parse_path opening (start plain_json stored)

-- Its user has been asked for.
abbrev checked : Provider Value
checked = run plain_json lower parse_path (mounted ∷ validation_due ∷ []) (start plain_json stored)

checked-IsSound : IsSound checked
checked-IsSound =
    run-IsSound plain_json lower parse_path (mounted ∷ validation_due ∷ [])
      (start plain_json stored) (start-IsSound plain_json stored stored-IsSafe)

fetch_current_user-chef : (fetch_current_user (with_signal false api) parse_path token).1 ≡ ok chef
unfolding fetch_current_user authenticated_request_json authenticated_request
    validate_authenticated_path starts_with str_eq create_bearer_headers is_header_value trim
    is_space resolve_api_request_timeout_ms build_api_url read_api_base_url settle_authenticated
    parse_auth_user has_exact_keys get matches are_segments is_allowed_account_orders_path
    match_segment parse_retry_after after_https decimal decimal_from drop_slashes
    is_loopback_hostname is_positive_numeral is_public_https_origin failure is_safe_integer num_gt
    num_le digit hex_lower order_character order_number_pattern split_on strip_prefix trim_end
    trim_start read_auth_role uuid_lower_pattern
fetch_current_user-chef = refl

opened-view : view opened.shown ≡ in_as token chef
unfolding run step take_task start_validation start_effect start load_auth_token get_item
    parse_stored_token parse_token has_exact_keys str_eq get num_eq is_access_token trim is_space
    validate_current_session begin_request settle_job fetch_current_user authenticated_request_json
    authenticated_request validate_authenticated_path starts_with create_bearer_headers
    is_header_value resolve_api_request_timeout_ms build_api_url read_api_base_url
    settle_authenticated parse_auth_user matches uuid_lower_pattern are_segments
    is_allowed_account_orders_path match_segment parse_retry_after after_https decimal decimal_from
    drop_slashes is_loopback_hostname is_positive_numeral is_public_https_origin failure
    clear_demo_session_marker is_marker load_demo_session_marker parse_demo_session_marker
    save_demo_session_marker clear_auth_token clear_legacy_auth_token load_legacy_auth_token
    remove_storage_key save_auth_token remove_item set_item is_safe_integer num_gt num_le digit
    hex_lower order_character order_number_pattern split_on strip_prefix trim_end trim_start
    accept_token accept_user classify_credential_error classify_demo_session_error clean_up
    clear_session establish_credentials fail_validation invalidate_session_if_current
    refresh_current_user reject_token retry_session suspend_session abort_controller
    parse_auth_token_response read_auth_role request_auth_token settle_auth_token
opened-view = refl

run-IsSession_example : (t : JsString) × (user : AuthUser) × IsSession opened t user
unfolding run step take_task start_validation start_effect start load_auth_token get_item
    parse_stored_token parse_token has_exact_keys str_eq get num_eq is_access_token trim is_space
    validate_current_session begin_request settle_job fetch_current_user authenticated_request_json
    authenticated_request validate_authenticated_path starts_with create_bearer_headers
    is_header_value resolve_api_request_timeout_ms build_api_url read_api_base_url
    settle_authenticated parse_auth_user matches uuid_lower_pattern hex_lower are_segments
    is_allowed_account_orders_path match_segment parse_retry_after after_https decimal decimal_from
    drop_slashes is_loopback_hostname is_positive_numeral is_public_https_origin failure
    clear_demo_session_marker is_marker load_demo_session_marker parse_demo_session_marker
    save_demo_session_marker clear_auth_token clear_legacy_auth_token load_legacy_auth_token
    remove_storage_key save_auth_token remove_item set_item is_safe_integer num_gt num_le digit
    order_character order_number_pattern split_on strip_prefix trim_end trim_start accept_token
    accept_user classify_credential_error classify_demo_session_error clean_up clear_session
    establish_credentials fail_validation invalidate_session_if_current refresh_current_user
    reject_token retry_session suspend_session abort_controller parse_auth_token_response
    read_auth_role request_auth_token settle_auth_token
run-IsSession_example = run-IsSession plain_json lower parse_path opening stored stored-IsSafe refl

start-Confirms_example : Confirms parse_path token chef opening
start-Confirms_example =
    start-Confirms plain_json lower parse_path opening stored token chef stored-IsSafe opened-view

run-logout_example : IsOut (run plain_json lower parse_path (logout ∷ settled 0 api ∷ []) checked)
run-logout_example =
    run-logout plain_json lower parse_path (settled 0 api ∷ []) checked checked-IsSound (refl, tt)

start-refines_example :
    abstract (run plain_json lower parse_path opening (start plain_json stored))
    ≡ spec_run lower parse_path opening (abstract (start plain_json stored))
start-refines_example = start-refines plain_json lower parse_path opening stored stored-IsSafe

start_ends_example :
    let p =
      run plain_json lower parse_path
        (validation_due ∷ [])
        (mounted_start plain_json lower parse_path stored) in
    is_checking (run plain_json lower parse_path (finish (answering rejected) p) p).shown.phase
    ≡ false
unfolding run step start_validation start_effect start load_auth_token get_item parse_stored_token
    parse_token has_exact_keys str_eq get num_eq is_access_token trim is_space
    validate_current_session begin_request
start_ends_example =
    start_ends plain_json lower parse_path (validation_due ∷ []) (answering rejected) stored
      stored-IsSafe (refl, tt) refl

administrator_sound_example :
    (t : JsString) × (user : AuthUser) × (IsSession opened t user
      × Confirms parse_path t user opening
      × (is_customer user.role ≡ false))
unfolding administrator_route_guard run step take_task start_validation start_effect start
    load_auth_token get_item parse_stored_token parse_token has_exact_keys str_eq get num_eq
    is_access_token trim is_space validate_current_session begin_request settle_job
    fetch_current_user authenticated_request_json authenticated_request validate_authenticated_path
    starts_with create_bearer_headers is_header_value resolve_api_request_timeout_ms build_api_url
    read_api_base_url settle_authenticated parse_auth_user matches uuid_lower_pattern are_segments
    is_allowed_account_orders_path match_segment parse_retry_after after_https decimal decimal_from
    drop_slashes is_loopback_hostname is_positive_numeral is_public_https_origin failure
    clear_demo_session_marker is_marker load_demo_session_marker parse_demo_session_marker
    save_demo_session_marker admin_next contains_unsafe_syntax is_account_order_detail_path
    is_admin_continuation is_admin_order_detail_path is_order_path parse_safe_next clear_auth_token
    clear_legacy_auth_token load_legacy_auth_token remove_storage_key save_auth_token remove_item
    set_item is_safe_integer num_gt num_le digit hex_lower order_character order_number_pattern
    split_on strip_prefix trim_end trim_start accept_token accept_user classify_credential_error
    classify_demo_session_error clean_up clear_session establish_credentials fail_validation
    invalidate_session_if_current refresh_current_user reject_token retry_session suspend_session
    abort_controller parse_auth_token_response read_auth_role request_auth_token settle_auth_token
administrator_sound_example =
    administrator_sound plain_json lower parse_path opening stored (js "/admin") stored-IsSafe refl

resolve_auth_destination-outlet_example :
    (if one_of static_super_admin_paths
        (resolve_auth_destination (some (js "/admin/users")) super_admin)
      then super_admin_route_guard (js "/login") (signed_in_as token false chef)
      else administrator_route_guard (js "/login") (signed_in_as token false chef))
    ≡ outlet
unfolding is_admin_continuation str_eq resolve_auth_destination parse_safe_next
    contains_unsafe_syntax starts_with is_account_order_detail_path split_on is_order_path
resolve_auth_destination-outlet_example =
    resolve_auth_destination-outlet (some (js "/admin/users")) (js "/login") token false chef refl
