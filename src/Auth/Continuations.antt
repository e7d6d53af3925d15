-- ===== src/Auth/Continuations.antt =====
-- Which continuations `parseSafeNext` lets through.
use restaurant_ordering_anal.Base.{
  ◌≡◌, refl, sym, ◌∙◌, Bool, true, false, ◌||◌, ◌∷◌, ◌++◌, Option, none, some, JsString, js, one_of,
  arith, all,
}
use restaurant_ordering_anal.Auth.Navigation.{
  starts_with, contains_unsafe_syntax, split_slash, are_detail_parts, is_order_path,
  is_admin_order_detail_path, is_account_order_detail_path, order_suffixes, static_public_paths,
  static_admin_paths, static_super_admin_paths, parse_safe_next,
}
use restaurant_ordering_anal.Auth.Paths.{
  is_path_character, join-split, one_of-all, all-append, order_number-all, are_order_parts-join,
  are_detail_parts-join,
}

order_path-all : (path : JsString) → is_order_path path ≡ true → all is_path_character path ≡ true
unfolding is_order_path is_path_character
order_path-all path h =
    let (n, suffix, e, number, known) = are_order_parts-join (split_slash path) h in
    rw (sym (join-split path) ∙ e) (
      all-append is_path_character n (b'/' ∷ suffix) (order_number-all n number)
        (one_of-all is_path_character order_suffixes suffix refl known))

detail_path-all :
    (area path : JsString)
    → all is_path_character area ≡ true
    → are_detail_parts area (split_slash path) ≡ true
    → all is_path_character path ≡ true
unfolding is_path_character
detail_path-all area path a h =
    let (n, e, number) = are_detail_parts-join area (split_slash path) h in
    rw (sym (join-split path) ∙ e)
      (all-append is_path_character area (js "/orders/" ++ n) a (order_number-all n number))

admin_detail-all :
    (path : JsString) → is_admin_order_detail_path path ≡ true → all is_path_character path ≡ true
unfolding is_admin_order_detail_path is_path_character
admin_detail-all path h = detail_path-all (js "admin") path refl h

account_detail-all :
    (path : JsString) → is_account_order_detail_path path ≡ true → all is_path_character path ≡ true
unfolding is_account_order_detail_path is_path_character
account_detail-all path h = detail_path-all (js "account") path refl h

-- The application's own paths, whoever may visit them.
abbrev pub is_known_path : JsString → Bool
is_known_path path =
    one_of static_public_paths path
    || is_account_order_detail_path path
    || is_order_path path
    || one_of static_admin_paths path
    || one_of static_super_admin_paths path
    || is_admin_order_detail_path path

known_path-all : (path : JsString) → is_known_path path ≡ true → all is_path_character path ≡ true
unfolding is_path_character
known_path-all path h =
    let public = one_of-all is_path_character static_public_paths path refl in
    let admins = one_of-all is_path_character static_admin_paths path refl in
    let supers = one_of-all is_path_character static_super_admin_paths path refl in
    ground (
      arith,
      public,
      admins,
      supers,
      order_path-all path,
      admin_detail-all path,
      account_detail-all path,
    )

-- An accepted continuation is the given text itself. It starts with one slash, not two, and consists of
-- letters, digits, slashes and dashes: it is a path of this origin, with no query or fragment.
pub parse_safe_next_sound :
    (value p : JsString)
    → parse_safe_next (some value) ≡ some p
    → (p ≡ value)
      × (all is_path_character p ≡ true)
      × (starts_with (js "/") p ≡ true)
      × (starts_with (js "//") p ≡ false)
unfolding parse_safe_next contains_unsafe_syntax
parse_safe_next_sound value p h =
    let same : p ≡ value = ground arith in
    let known : is_known_path value ≡ true = ground arith in
    (same, rw same (known_path-all value known), rw same (ground arith), rw same (ground arith))

-- Only the application's own paths are accepted, and each of them that holds no unsafe syntax is.
pub parse_safe_next-known :
    (next : Option JsString) (p : JsString) → parse_safe_next next ≡ some p → is_known_path p ≡ true
unfolding parse_safe_next
parse_safe_next-known none p h = absurd (cc)
parse_safe_next-known (some value) p h = ground arith
