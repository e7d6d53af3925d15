-- ===== src/Session/Guarded.antt =====
-- Who gets past the guards.
use restaurant_ordering_anal.Base.{
  Bool, true, false, List, Option, none, some, JsString, ◌≡◌, refl, arith, ap, one_of, str_eq,
  Bool-cases, inl, inr, if◌then◌else◌,
}
use restaurant_ordering_anal.Js.{Json}
use restaurant_ordering_anal.Js.Pattern.{split_on}
use restaurant_ordering_anal.Api.Config.{Url}
use restaurant_ordering_anal.Auth.Tokens.{AuthState}
use restaurant_ordering_anal.Auth.Memory.{IsSafe}
use restaurant_ordering_anal.Auth.Navigation.{
  AuthRole, customer, admin, super_admin, destination_of, is_admin_order_detail_path,
  parse_safe_next, is_super_admin, is_customer, admin_next, resolve_auth_destination,
  is_admin_continuation, static_super_admin_paths,
}
use restaurant_ordering_anal.Session.Users.{AuthUser}
use restaurant_ordering_anal.Session.State.{AuthPhase, signed_in, Shown, start, with_phase}
use restaurant_ordering_anal.Session.Steps.{Event, run}
use restaurant_ordering_anal.Session.Sound.{is_signed_in}
use restaurant_ordering_anal.Session.Views.{view}
use restaurant_ordering_anal.Session.Signed.{IsSession, run-IsSession}
use restaurant_ordering_anal.Session.Confirmed.{Confirms, start-Confirms}
use restaurant_ordering_anal.Session.Guards.{
  Screen, outlet, guarded, administrator_route_guard, super_admin_route_guard, administrator_screen,
  super_admin_screen,
}

outlet-signed_in :
    (phase : AuthPhase) (continuation : JsString) (screen : Screen)
    → guarded phase continuation screen ≡ outlet
    → (is_signed_in phase ≡ true) × (screen ≡ outlet)
outlet-signed_in phase continuation screen h = ground arith

administrator-role :
    (shown : Option AuthUser) (user : AuthUser)
    → shown ≡ some user
    → administrator_screen shown ≡ outlet
    → is_customer user.role ≡ false
administrator-role shown user e h = ground arith

super_admin-role :
    (shown : Option AuthUser) (user : AuthUser)
    → shown ≡ some user
    → super_admin_screen shown ≡ outlet
    → is_super_admin user.role ≡ true
super_admin-role shown user e h = ground arith

module _ (json : Json) (lower : JsString → JsString) (parse_path : JsString → Option Url) where
  open json use {Text}

  -- The user whom a guard let in.
  let_in :
      (es : List Event) (s : AuthState Text)
      → IsSafe s
      → is_signed_in (run json lower parse_path es (start json s)).shown.phase ≡ true
      → let p = run json lower parse_path es (start json s) in
        (token : JsString) × (user : AuthUser) × (IsSession p token user
          × Confirms parse_path token user es
          × (p.shown.user ≡ some user))
  let_in es s h e =
      let (token, user, session) = run-IsSession json lower parse_path es s h e in
      (
        token,
        user,
        (
          session,
          start-Confirms json lower parse_path es s token user h (ap view session.shown),
          ap (λ t. t.user) session.shown,
        ),
      )

  -- From the first render on, whatever happens: where the guard of the administration lets a session in, one
  -- user is signed in whom the API has named for the token held, with the role of an administrator or
  -- super administrator. The page starts with memories that are empty or hold well-formed tokens.
  pub administrator_sound :
      (es : List Event) (s : AuthState Text) (pathname : JsString)
      → IsSafe s
      → administrator_route_guard pathname (run json lower parse_path es (start json s)).shown
        ≡ outlet
      → (token : JsString) × (user : AuthUser) × (IsSession
            (run json lower parse_path es (start json s))
            token
            user
          × Confirms parse_path token user es
          × (is_customer user.role ≡ false))
  unfolding administrator_route_guard
  administrator_sound es s pathname h o =
      let p = run json lower parse_path es (start json s) in
      let (phase, screen) =
        outlet-signed_in p.shown.phase (admin_next pathname) (administrator_screen p.shown.user)
          o in
      let (token, user, (session, confirmed, shown)) = let_in es s h phase in
      (token, user, (session, confirmed, administrator-role p.shown.user user shown screen))

  -- Likewise, where the guard of the user management lets a session in, that user is a super
  -- administrator. The page starts with memories that are empty or hold well-formed tokens.
  pub super_admin_sound :
      (es : List Event) (s : AuthState Text) (pathname : JsString)
      → IsSafe s
      → super_admin_route_guard pathname (run json lower parse_path es (start json s)).shown
        ≡ outlet
      → (token : JsString) × (user : AuthUser) × (IsSession
            (run json lower parse_path es (start json s))
            token
            user
          × Confirms parse_path token user es
          × (is_super_admin user.role ≡ true))
  unfolding super_admin_route_guard
  super_admin_sound es s pathname h o =
      let p = run json lower parse_path es (start json s) in
      let (phase, screen) =
        outlet-signed_in p.shown.phase (admin_next pathname) (super_admin_screen p.shown.user) o in
      let (token, user, (session, confirmed, shown)) = let_in es s h phase in
      (token, user, (session, confirmed, super_admin-role p.shown.user user shown screen))

-- An administration page is no destination of a customer, nor the user management of an administrator.
destination_of-administrator :
    (o : Option JsString) (role : AuthRole)
    → is_admin_continuation (destination_of o role) ≡ true
    → is_customer role ≡ false
unfolding is_admin_continuation str_eq is_admin_order_detail_path split_on
destination_of-administrator none customer h = absurd (ground arith)
destination_of-administrator (some p) customer h = absurd (ground arith)
destination_of-administrator o admin h = refl
destination_of-administrator o super_admin h = refl

destination_of-super_admin :
    (o : Option JsString) (role : AuthRole)
    → one_of static_super_admin_paths (destination_of o role) ≡ true
    → is_super_admin role ≡ true
unfolding str_eq
destination_of-super_admin none role h = absurd (ground arith)
destination_of-super_admin (some p) customer h = absurd (ground arith)
destination_of-super_admin (some p) admin h = absurd (ground arith)
destination_of-super_admin (some p) super_admin h = refl

administrator-outlet :
    (role : AuthRole) (user : AuthUser)
    → user.role ≡ role
    → is_customer role ≡ false
    → administrator_screen (some user) ≡ outlet
administrator-outlet role user e h = ground arith

super_admin-outlet :
    (user : AuthUser) → is_super_admin user.role ≡ true → super_admin_screen (some user) ≡ outlet
super_admin-outlet user h = ground arith

-- What is shown once a user is signed in.
abbrev pub signed_in_as : JsString → Bool → AuthUser → Shown
signed_in_as token demo user = with_phase token demo signed_in (some user)

-- A destination in the administration that is chosen at sign-in is not refused by its guard: the user
-- management is shown to its user, and so is any other administration page.
pub resolve_auth_destination-outlet :
    (next : Option JsString) (pathname token : JsString) (demo : Bool) (user : AuthUser)
    → is_admin_continuation (resolve_auth_destination next user.role) ≡ true
    → (if one_of static_super_admin_paths (resolve_auth_destination next user.role)
        then super_admin_route_guard pathname (signed_in_as token demo user)
        else administrator_route_guard pathname (signed_in_as token demo user))
      ≡ outlet
unfolding super_admin_route_guard administrator_route_guard resolve_auth_destination
resolve_auth_destination-outlet next pathname token demo user h =
    elim (Bool-cases (one_of static_super_admin_paths (resolve_auth_destination next user.role))) [
      | inl s ↦
          rw s (
            super_admin-outlet user (destination_of-super_admin (parse_safe_next next) user.role s))
      | inr s ↦ rw s (
          administrator-outlet user.role user refl
            (destination_of-administrator (parse_safe_next next) user.role h))
    ]
