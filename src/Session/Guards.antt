-- ===== src/Session/Guards.antt =====
-- frontend/src/features/auth/RouteGuards.tsx, and the guard of the personal pages in
-- frontend/src/routes/router.tsx: what a guard shows of the session.
use restaurant_ordering_anal.Base.{
  Bool, true, false, not, ◌&&◌, Option, none, some, JsString, js, if◌then◌else◌,
}
use restaurant_ordering_anal.Auth.Navigation.{AuthRole, is_admin, is_super_admin, admin_next}
use restaurant_ordering_anal.Session.Users.{AuthUser}
use restaurant_ordering_anal.Session.State.{
  AuthPhase, signed_in, checking_session, temporarily_unavailable, signed_out, Shown,
}

-- `to_login` carries the continuation that the login page is given; `to` says whether the refusal is
-- told.
pub data Screen : Type 0 where
  session_validation : AuthPhase → Screen
  to_login : JsString → Screen
  to : JsString → Bool → Screen
  demo_notice outlet : Screen

-- `user?.role === …`.
abbrev pub has_role : (AuthRole → Bool) → Option AuthUser → Bool
has_role test none = false
has_role test (some user) = test user.role

abbrev pub administrator_screen : Option AuthUser → Screen
administrator_screen user =
    if not (has_role is_admin user) && not (has_role is_super_admin user)
    then to (js "/account") true
    else outlet

abbrev pub super_admin_screen : Option AuthUser → Screen
super_admin_screen user =
    if not (has_role is_super_admin user)
    then to (if has_role is_admin user then js "/admin" else js "/account") false
    else outlet

abbrev pub guarded : AuthPhase → JsString → Screen → Screen
guarded checking_session continuation screen = session_validation checking_session
guarded temporarily_unavailable continuation screen = session_validation temporarily_unavailable
guarded signed_out continuation screen = to_login continuation
guarded signed_in continuation screen = screen

unfoldable pub administrator_route_guard : JsString → Shown → Screen
administrator_route_guard pathname s =
    guarded s.phase (admin_next pathname) (administrator_screen s.user)

unfoldable pub super_admin_route_guard : JsString → Shown → Screen
super_admin_route_guard pathname s =
    guarded s.phase (admin_next pathname) (super_admin_screen s.user)

unfoldable pub account_route_guard : JsString → Shown → Screen
account_route_guard pathname s =
    guarded s.phase pathname (if s.is_demo_session then demo_notice else outlet)
