-- ===== src/Admin/Sent.antt =====
-- Where the administrator's token may go.
use restaurant_ordering_anal.Base.{
  ◌≤◌, ◌≡◌, true, List, Option, some, JsString, length, All, Outcome, ok, throw, arith, refl,
  Option-cases, inl, inr, str_eq_sound,
}
use restaurant_ordering_anal.Js.{Number, Value}
use restaurant_ordering_anal.Js.Pattern.{is_empty}
use restaurant_ordering_anal.Auth.Navigation.{starts_with}
use restaurant_ordering_anal.Api.Errors.{ApiRequestError}
use restaurant_ordering_anal.Api.Config.{Url, build_api_url}
use restaurant_ordering_anal.Api.Exchange.{World, Request}
use restaurant_ordering_anal.Admin.Client.{
  AdminHttpMethod, admin_path_prefix, admin_path_validation_origin, method_name,
  validate_admin_path, checked_headers, admin_request_with, execute_admin_request, send_admin,
  admin_request_json,
}

-- A request to the configured API at a path that is resolved below `/api/v1/admin/` of its origin.
pub record IsAdminRequest (w : World) (parse_path : JsString → Option Url) (path : JsString)
    (method : AdminHttpMethod) (r : Request) : Type 0 where
  pub target : build_api_url w.env w.parse_url path ≡ ok r.url
  pub verb : r.method ≡ method_name method
  pub resolved :
      (parsed : Url) × ((parse_path path ≡ some parsed)
        × (parsed.origin ≡ admin_path_validation_origin)
        × (starts_with admin_path_prefix parsed.pathname ≡ true)
        × (is_empty parsed.hash ≡ true))

admin_path-resolved :
    (parse_path : JsString → Option Url) (path : JsString) (u : Unit {0})
    → validate_admin_path parse_path path ≡ ok u
    → (parsed : Url) × ((parse_path path ≡ some parsed)
        × (parsed.origin ≡ admin_path_validation_origin)
        × (starts_with admin_path_prefix parsed.pathname ≡ true)
        × (is_empty parsed.hash ≡ true))
unfolding validate_admin_path
admin_path-resolved parse_path path u h = elim (Option-cases (parse_path path)) [
  | inl e ↦ absurd (ground arith)
  | inr (parsed, e) ↦ (
    parsed,
    (
      e,
      str_eq_sound parsed.origin admin_path_validation_origin (ground arith),
      ground arith,
      ground arith,
    ),
  )
]

module _ (w : World) (parse_path : JsString → Option Url) (path : JsString)
    (method : AdminHttpMethod) where
  abbrev AreSent : List Request → Type 0
  AreSent rs = All (IsAdminRequest w parse_path path method) rs × (length rs ≤ 1)

  send_admin-AreSent :
      (o : Outcome ApiRequestError JsString) (u : Unit {0}) (headers : List (JsString × JsString))
      (body : Option Value)
      → build_api_url w.env w.parse_url path ≡ o
      → validate_admin_path parse_path path ≡ ok u
      → AreSent
          (send_admin w parse_path o (λ url. record {
            method = method_name method;
            url = url;
            headers = headers;
            body = body;
          })).0
  send_admin-AreSent (throw e) u headers body t v = (tt, omega arith)
  send_admin-AreSent (ok url) u headers body t v = (
    (record { target = t; verb = refl; resolved = admin_path-resolved parse_path path u v }, tt),
    omega arith,
  )

  execute-AreSent :
      (o : Outcome ApiRequestError (Unit {0})) (headers : List (JsString × JsString))
      (body : Option Value)
      → validate_admin_path parse_path path ≡ o
      → AreSent (execute_admin_request w parse_path path method headers body o).0
  execute-AreSent (throw e) headers body v = (tt, omega arith)
  execute-AreSent (ok u) headers body v = send_admin-AreSent _ u headers body refl v

  request_with-AreSent :
      (o : Outcome ApiRequestError (List (JsString × JsString))) (body : Option Value)
      → AreSent (admin_request_with w parse_path path method body o).0
  request_with-AreSent (throw e) body = (tt, omega arith)
  request_with-AreSent (ok headers) body = execute-AreSent _ headers body refl

  -- Whatever path it is called with and however it ends, the administration's client sends at most one
  -- request, with the given method, to the configured API; and a path is sent only if `new URL` resolves
  -- it below `/api/v1/admin/` at the origin that it is given, without a fragment.
  pub admin_request_json_sound :
      (token : Option JsString) (body : Option Value) (timeout_ms : Option Number)
      → All
          (IsAdminRequest w parse_path path method)
          (admin_request_json w parse_path path method token body timeout_ms).0
        × (length (admin_request_json w parse_path path method token body timeout_ms).0 ≤ 1)
  unfolding admin_request_json
  admin_request_json_sound token body timeout_ms =
      request_with-AreSent (checked_headers w parse_path token timeout_ms body) body
