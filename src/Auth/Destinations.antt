-- ===== src/Auth/Destinations.antt =====
-- Where a sign-in leads, against the areas of the site: everything below `/admin` is for administrators,
-- everything below `/admin/users` for the super administrator.
use restaurant_ordering_anal.Base.{
  ℕ, ◌≤◌, ◌≡◌, refl, sym, ◌∙◌, Bool, true, false, not, ◌&&◌, List, [], ◌∷◌, Option, none, some,
  JsString, js, one_of, str_eq, str_eq_sound, arith, Bool-cases, or-cases, inl, inr, all, subst,
  if◌then◌else◌,
}
use restaurant_ordering_anal.Js.Pattern.{split_on}
use restaurant_ordering_anal.Auth.Navigation.{
  AuthRole, admin, customer, super_admin, starts_with, split_slash, are_detail_parts, is_order_path,
  is_admin_order_detail_path, is_account_order_detail_path, is_admin_continuation,
  static_public_paths, static_admin_paths, static_super_admin_paths, parse_safe_next,
  destination_of, resolve_auth_destination,
}
use restaurant_ordering_anal.Auth.Paths.{
  join-split, detail_path, are_order_parts-join, are_detail_parts-join,
}
use restaurant_ordering_anal.Auth.Continuations.{is_known_path, parse_safe_next-known}

-- The least rank that may visit a path, read off its beginning.
abbrev pub area_rank : JsString → ℕ
area_rank path =
    if starts_with (js "/admin/users") path
    then 2
    else if starts_with (js "/admin") path
    then 1
    else 0

abbrev pub role_rank : AuthRole → ℕ
role_rank customer = 0
role_rank admin = 1
role_rank super_admin = 2

one_of-check :
    (q : JsString → Bool) (ts : List JsString) (s : JsString)
    → all q ts ≡ true
    → one_of ts s ≡ true
    → q s ≡ true
one_of-check q [] s a h = absurd (cc)
one_of-check q (t ∷ ts) s a h = elim (Bool-cases (str_eq s t)) [
  | inl e ↦ rw (str_eq_sound s t e) (ground arith)
  | inr e ↦ one_of-check q ts s (ground arith) (ground arith)
]

detail_area :
    (area a b : JsString) (rest : List JsString)
    → str_eq b area ≡ false
    → are_detail_parts area (a ∷ b ∷ rest) ≡ false
detail_area area a b (c ∷ d ∷ []) h = ground arith
detail_area area a b _ h = refl

-- The tests of the code and the beginning of a path agree.
abbrev Agrees : JsString → Type 0
Agrees path =
    (is_admin_continuation path ≡ starts_with (js "/admin") path)
    × (one_of static_super_admin_paths path ≡ starts_with (js "/admin/users") path)

abbrev same : Bool → Bool → Bool
same true b = b
same false b = not b

same-eq : (a b : Bool) → same a b ≡ true → a ≡ b
same-eq true b h = sym h
same-eq false b h = ground arith

abbrev agrees : JsString → Bool
agrees path =
    same (is_admin_continuation path) (starts_with (js "/admin") path)
    && same (one_of static_super_admin_paths path) (starts_with (js "/admin/users") path)

agrees_sound : (path : JsString) → agrees path ≡ true → Agrees path
agrees_sound path h = (same-eq _ _ (ground arith), same-eq _ _ (ground arith))

static-Agrees :
    (ts : List JsString) (path : JsString)
    → all agrees ts ≡ true
    → one_of ts path ≡ true
    → Agrees path
static-Agrees ts path a h = agrees_sound path (one_of-check agrees ts path a h)

order-Agrees : (path : JsString) → is_order_path path ≡ true → Agrees path
unfolding is_order_path is_admin_continuation is_admin_order_detail_path starts_with str_eq split_on
order-Agrees path h =
    let (n, suffix, e, number, known) = are_order_parts-join (split_slash path) h in
    rw (sym (join-split path) ∙ e) (detail_area (js "admin") [] (js "orders") _ refl, refl)

account-Agrees : (path : JsString) → is_account_order_detail_path path ≡ true → Agrees path
unfolding is_account_order_detail_path is_admin_continuation is_admin_order_detail_path starts_with
    str_eq split_on
account-Agrees path h =
    let (n, e, number) = are_detail_parts-join (js "account") (split_slash path) h in
    rw (sym (join-split path) ∙ e)
      (detail_area (js "admin") [] (js "account") (js "orders" ∷ split_slash n) refl, refl)

admin-Agrees : (path : JsString) → is_admin_order_detail_path path ≡ true → Agrees path
unfolding is_admin_continuation is_admin_order_detail_path starts_with str_eq split_on
admin-Agrees path h =
    let (n, e, number) = are_detail_parts-join (js "admin") (split_slash path) h in
    let path' : path ≡ detail_path (js "admin") n = sym (join-split path) ∙ e in
    rw path' (subst (λ p. is_admin_order_detail_path p ≡ true) path' h, refl)

known_path-Agrees : (path : JsString) → is_known_path path ≡ true → Agrees path
unfolding is_admin_continuation is_admin_order_detail_path starts_with str_eq split_on
known_path-Agrees path h = elim (or-cases _ _ h) [
  | inr k ↦ admin-Agrees path k
  | inl h1 ↦ elim (or-cases _ _ h1) [
    | inr k ↦ static-Agrees static_super_admin_paths path refl k
    | inl h2 ↦ elim (or-cases _ _ h2) [
      | inr k ↦ static-Agrees static_admin_paths path refl k
      | inl h3 ↦ elim (or-cases _ _ h3) [
        | inr k ↦ order-Agrees path k
        | inl h4 ↦ elim (or-cases _ _ h4) [
          | inr k ↦ account-Agrees path k
          | inl k ↦ static-Agrees static_public_paths path refl k
        ]
      ]
    ]
  ]
]

rank_of_tests :
    (role : AuthRole) (p : JsString)
    → is_admin_continuation p ≡ starts_with (js "/admin") p
    → one_of static_super_admin_paths p ≡ starts_with (js "/admin/users") p
    → area_rank (destination_of (some p) role) ≤ role_rank role
unfolding starts_with
rank_of_tests customer p a u = ground arith
rank_of_tests admin p a u = ground arith
rank_of_tests super_admin p a u = ground arith

destination-authorized :
    (o : Option JsString) (role : AuthRole)
    → ((p : JsString) → o ≡ some p → Agrees p)
    → area_rank (destination_of o role) ≤ role_rank role
unfolding starts_with
destination-authorized none role h = omega arith
destination-authorized (some p) role h = let (a, u) = h p refl in rank_of_tests role p a u

destination_kept :
    (p : JsString) (role : AuthRole)
    → Agrees p
    → area_rank p ≤ role_rank role
    → destination_of (some p) role ≡ p
destination_kept p customer a r = ground arith
destination_kept p admin a r = ground arith
destination_kept p super_admin a r = ground arith

-- Where a sign-in leads is open to the role, whatever continuation was asked for: a customer never
-- reaches a path below `/admin`, an administrator never one below `/admin/users`.
pub resolve_auth_destination_authorized :
    (next : Option JsString) (role : AuthRole)
    → area_rank (resolve_auth_destination next role) ≤ role_rank role
unfolding resolve_auth_destination
resolve_auth_destination_authorized next role =
    destination-authorized (parse_safe_next next) role
      (λ p h. known_path-Agrees p (parse_safe_next-known next p h))

-- An accepted continuation that is open to the role is where the sign-in leads.
pub resolve_auth_destination_kept :
    (next : Option JsString) (role : AuthRole) (path : JsString)
    → parse_safe_next next ≡ some path
    → area_rank path ≤ role_rank role
    → resolve_auth_destination next role ≡ path
unfolding resolve_auth_destination
resolve_auth_destination_kept next role path h r =
    rw h (destination_kept path role (known_path-Agrees path (parse_safe_next-known next path h)) r)
