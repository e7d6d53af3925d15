-- ===== src/Admin/Users.antt =====
-- frontend/src/features/admin-users/adminUsersApi.ts
use restaurant_ordering_anal.Base.{
  ℕ, Bool, ◌&&◌, List, [], ◌∷◌, ◌++◌, Option, none, some, JsString, js, if◌then◌else◌, length, ltb,
  leb, all, one_of, str_eq, ◌==◌, Outcome, ok, ◌>>=◌, ◌>>◌,
}
use restaurant_ordering_anal.Js.{
  Number, nat, max_safe_integer, Value, Fields, keys, string, object, field, end, get, as_record,
  as_string, as_number, as_array, boolean, is_number,
}
use restaurant_ordering_anal.Js.Pattern.{matches, uuid_pattern, trim}
use restaurant_ordering_anal.Auth.Navigation.{AuthRole, includes}
use restaurant_ordering_anal.Api.Errors.{ApiRequestError}
use restaurant_ordering_anal.Api.Config.{Url, guard_ok}
use restaurant_ordering_anal.Api.Exchange.{World, Sent}
use restaurant_ordering_anal.Orders.Fields.{require, map_ok, matching_string}
use restaurant_ordering_anal.Orders.Quote.{and_then, after_check}
use restaurant_ordering_anal.Orders.Checkout.{is_aware_datetime}
use restaurant_ordering_anal.Session.Users.{read_auth_role}
use restaurant_ordering_anal.Account.Pages.{
  default_limit, default_offset, or_default, integer_in, fits_page, numeral,
}
use restaurant_ordering_anal.Admin.Client.{
  invalid_admin_request, get_method, patch_method, admin_request_json,
}

abbrev pub admin_users_path : JsString
admin_users_path = js "/api/v1/admin/users"

abbrev pub user_item_keys : List JsString
user_item_keys =
    js "created_at" ∷ js "email" ∷ js "id" ∷ js "is_active" ∷ js "role" ∷ js "updated_at" ∷ []

abbrev pub users_response_keys : List JsString
users_response_keys = js "items" ∷ js "limit" ∷ js "offset" ∷ js "total" ∷ []

abbrev pub role_update_response_keys : List JsString
role_update_response_keys = js "email" ∷ js "id" ∷ js "role" ∷ js "updated_at" ∷ []

pub data OrdinaryRole : Type 0 where
  ordinary_admin ordinary_customer : OrdinaryRole

abbrev pub role_name : OrdinaryRole → JsString
role_name ordinary_admin = js "admin"
role_name ordinary_customer = js "customer"

-- `isOrdinaryAdminUserRole`, with the role that it finds.
unfoldable pub read_ordinary_role : JsString → Option OrdinaryRole
read_ordinary_role name =
    if str_eq name (js "admin")
    then some ordinary_admin
    else if str_eq name (js "customer")
    then some ordinary_customer
    else none

pub record AdminUserListItem : Type 0 where
  pub created_at : JsString
  pub email : JsString
  pub id : JsString
  pub is_active : Bool
  pub role : AuthRole
  pub updated_at : JsString

pub record AdminUsersResponse : Type 0 where
  pub items : List AdminUserListItem
  pub limit : ℕ
  pub offset : ℕ
  pub total : ℕ

pub record AdminUserRoleUpdateResponse : Type 0 where
  pub email : JsString
  pub id : JsString
  pub role : OrdinaryRole
  pub updated_at : JsString

-- `hasExactKeys` of this module and the other administration modules: as many keys, and each expected
-- one among them.
unfoldable pub has_own_keys : Fields → List JsString → Bool
has_own_keys fs expected = (length (keys fs) == length expected) && all (one_of (keys fs)) expected

abbrev pub own_record : List JsString → Value → Outcome ApiRequestError Fields
own_record expected value = do
  fields ← require (as_record value) invalid_admin_request
  guard_ok (has_own_keys fields expected) invalid_admin_request
  ok fields

-- `isEmail`, of a value known to be a string.
unfoldable pub is_user_email : JsString → Bool
is_user_email s = ltb 0 (length s) && leb (length s) 320 && str_eq (trim s) s && includes b'@' s

abbrev pub as_boolean : Value → Option Bool
as_boolean (boolean b) = some b
as_boolean _ = none

module _ (is_date : JsString → Bool) (lower : JsString → JsString) where
  unfoldable pub parse_user_item : Value → Outcome ApiRequestError AdminUserListItem
  parse_user_item value = do
    fields ← own_record user_item_keys value
    id ← matching_string (matches uuid_pattern) (get (js "id") fields) invalid_admin_request
    email ← matching_string is_user_email (get (js "email") fields) invalid_admin_request
    name ← require (as_string (get (js "role") fields)) invalid_admin_request
    role ← require (read_auth_role name) invalid_admin_request
    is_active ← require (as_boolean (get (js "is_active") fields)) invalid_admin_request
    created_at ←
        matching_string (is_aware_datetime is_date) (get (js "created_at") fields)
          invalid_admin_request
    updated_at ←
        matching_string (is_aware_datetime is_date) (get (js "updated_at") fields)
          invalid_admin_request
    ok (record {
      created_at = created_at;
      email = email;
      id = id;
      is_active = is_active;
      role = role;
      updated_at = updated_at;
    })

  unfoldable pub parse_users_response : ℕ → ℕ → Value → Outcome ApiRequestError AdminUsersResponse
  parse_users_response expected_limit expected_offset value = do
    fields ← own_record users_response_keys value
    values ← require (as_array (get (js "items") fields)) invalid_admin_request
    number ← require (as_number (get (js "total") fields)) invalid_admin_request
    total ← require (integer_in 0 max_safe_integer number) invalid_admin_request
    guard_ok (is_number (nat expected_limit) (get (js "limit") fields)) invalid_admin_request
    guard_ok (is_number (nat expected_offset) (get (js "offset") fields)) invalid_admin_request
    items ← map_ok parse_user_item values
    guard_ok (fits_page (length items) expected_limit expected_offset total) invalid_admin_request
    ok (record { items = items; limit = expected_limit; offset = expected_offset; total = total })

  -- `toLowerCase` is the argument `lower`.
  unfoldable pub parse_role_update_response :
      JsString → OrdinaryRole → Value → Outcome ApiRequestError AdminUserRoleUpdateResponse
  parse_role_update_response expected_user_id expected_role value = do
    fields ← own_record role_update_response_keys value
    id ← matching_string (matches uuid_pattern) (get (js "id") fields) invalid_admin_request
    guard_ok (str_eq (lower id) (lower expected_user_id)) invalid_admin_request
    email ← matching_string is_user_email (get (js "email") fields) invalid_admin_request
    name ← require (as_string (get (js "role") fields)) invalid_admin_request
    role ← require (read_ordinary_role name) invalid_admin_request
    guard_ok (str_eq (role_name role) (role_name expected_role)) invalid_admin_request
    updated_at ←
        matching_string (is_aware_datetime is_date) (get (js "updated_at") fields)
          invalid_admin_request
    ok (record { email = email; id = id; role = role; updated_at = updated_at })

unfoldable pub validate_users_pagination : Number → Number → Outcome ApiRequestError (ℕ × ℕ)
validate_users_pagination limit offset = do
  l ← require (integer_in 1 100 limit) invalid_admin_request
  o ← require (integer_in 0 max_safe_integer offset) invalid_admin_request
  ok (l, o)

unfoldable pub users_page_path : ℕ → ℕ → JsString
users_page_path limit offset =
    admin_users_path ++ (js "?limit=" ++ (numeral limit ++ (js "&offset=" ++ numeral offset)))

-- `encodeURIComponent` leaves a UUID as it is.
unfoldable pub role_path : JsString → JsString
role_path user_id = admin_users_path ++ (js "/" ++ (user_id ++ js "/role"))

module _ (w : World) (parse_path : JsString → Option Url) (is_date : JsString → Bool)
    (lower : JsString → JsString) where
  abbrev pub fetch_users_page : JsString → ℕ × ℕ → Sent AdminUsersResponse
  fetch_users_page access_token (limit, offset) =
      and_then
        (admin_request_json w parse_path (users_page_path limit offset) get_method
          (some access_token) none none)
        (parse_users_response is_date lower limit offset)

  unfoldable pub fetch_admin_users :
      JsString → Option Number → Option Number → Sent AdminUsersResponse
  fetch_admin_users access_token limit offset =
      after_check
        (validate_users_pagination (or_default default_limit limit)
          (or_default default_offset offset))
        (fetch_users_page access_token)

  unfoldable pub update_admin_user_role :
      JsString → JsString → OrdinaryRole → Sent AdminUserRoleUpdateResponse
  update_admin_user_role user_id access_token role =
      after_check (guard_ok (matches uuid_pattern user_id) invalid_admin_request) λ _.
        and_then
          (admin_request_json w parse_path (role_path user_id) patch_method (some access_token)
            (some (object (field (js "role") (string (role_name role)) end))) none)
          (parse_role_update_response is_date lower user_id role)
