-- ===== src/Auth/Navigation.antt =====
-- frontend/src/features/auth/authNavigation.ts
use restaurant_ordering_anal.Base.{
  ℕ, Bool, true, false, not, ◌&&◌, ◌||◌, List, [], ◌∷◌, Option, none, some, JsString, js,
  if◌then◌else◌, any, one_of, str_eq, leb, ◌==◌,
}
use restaurant_ordering_anal.Js.Pattern.{matches, order_number_pattern, split_on}

pub data AuthRole : Type 0 where
  admin customer super_admin : AuthRole

abbrev pub default_auth_destination : JsString
default_auth_destination = js "/account"

abbrev pub static_public_paths : List JsString
static_public_paths = js "/" ∷ js "/account" ∷ js "/cart" ∷ js "/menu" ∷ []

abbrev pub static_admin_paths : List JsString
static_admin_paths =
    js "/admin"
    ∷ js "/admin/analytics"
    ∷ js "/admin/exports"
    ∷ js "/admin/menu"
    ∷ js "/admin/orders"
    ∷ []

abbrev pub static_super_admin_paths : List JsString
static_super_admin_paths = js "/admin/users" ∷ []

abbrev pub order_suffixes : List JsString
order_suffixes = js "checkout" ∷ js "checkout-cancelled" ∷ js "payment-return" ∷ js "status" ∷ []

-- `value.startsWith(prefix)`.
unfoldable pub starts_with : JsString → JsString → Bool
starts_with [] s = true
starts_with (c ∷ p) [] = false
starts_with (c ∷ p) (d ∷ s) = c == d && starts_with p s

-- `value.includes(c)` for one character.
abbrev pub includes : ℕ → JsString → Bool
includes c = any (λ d. d == c)

-- Control characters are single code units, so that code units stand for code points here.
abbrev pub is_control : ℕ → Bool
is_control c = leb c 0x1f || c == 0x7f

unfoldable pub contains_unsafe_syntax : JsString → Bool
contains_unsafe_syntax value =
    not (starts_with (js "/") value)
    || starts_with (js "//") value
    || includes b'\\' value
    || includes b'?' value
    || includes b'#' value
    || any is_control value

-- `path.split('/')`.
abbrev pub split_slash : JsString → List JsString
split_slash = split_on b'/'

-- The three tests on the parts of a path, of which there must be four.
abbrev pub are_order_parts : List JsString → Bool
are_order_parts (a ∷ b ∷ c ∷ d ∷ []) =
    str_eq a []
    && str_eq b (js "orders")
    && matches order_number_pattern c
    && one_of order_suffixes d
are_order_parts _ = false

abbrev pub are_detail_parts : JsString → List JsString → Bool
are_detail_parts area (a ∷ b ∷ c ∷ d ∷ []) =
    str_eq a [] && str_eq b area && str_eq c (js "orders") && matches order_number_pattern d
are_detail_parts area _ = false

unfoldable pub is_order_path : JsString → Bool
is_order_path path = are_order_parts (split_slash path)

unfoldable pub is_admin_order_detail_path : JsString → Bool
is_admin_order_detail_path path = are_detail_parts (js "admin") (split_slash path)

unfoldable pub is_account_order_detail_path : JsString → Bool
is_account_order_detail_path path = are_detail_parts (js "account") (split_slash path)

unfoldable pub is_admin_continuation : JsString → Bool
is_admin_continuation path =
    one_of static_admin_paths path
    || one_of static_super_admin_paths path
    || is_admin_order_detail_path path

-- `null` and `undefined` are `none`.
unfoldable pub parse_safe_next : Option JsString → Option JsString
parse_safe_next none = none
parse_safe_next (some value) =
    if contains_unsafe_syntax value
    then none
    else if one_of static_public_paths value
        || is_account_order_detail_path value
        || is_order_path value
    then some value
    else if one_of static_admin_paths value
        || one_of static_super_admin_paths value
        || is_admin_order_detail_path value
    then some value
    else none

abbrev pub is_super_admin : AuthRole → Bool
is_super_admin super_admin = true
is_super_admin _ = false

abbrev pub is_admin : AuthRole → Bool
is_admin admin = true
is_admin _ = false

abbrev pub is_customer : AuthRole → Bool
is_customer customer = true
is_customer _ = false

abbrev pub destination_of : Option JsString → AuthRole → JsString
destination_of none role = default_auth_destination
destination_of (some safe_next) role =
    if one_of static_super_admin_paths safe_next
    then (if is_super_admin role
        then safe_next
        else if is_admin role
        then js "/admin"
        else default_auth_destination)
    else if is_admin_continuation safe_next && is_customer role
    then default_auth_destination
    else safe_next

unfoldable pub resolve_auth_destination : Option JsString → AuthRole → JsString
resolve_auth_destination next role = destination_of (parse_safe_next next) role

abbrev pub admin_next_of : Option JsString → JsString
admin_next_of none = js "/admin"
admin_next_of (some safe_path) = if is_admin_continuation safe_path then safe_path else js "/admin"

-- The continuation that `buildAdminLoginTarget` chooses.
unfoldable pub admin_next : JsString → JsString
admin_next pathname = admin_next_of (parse_safe_next (some pathname))
