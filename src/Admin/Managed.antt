-- ===== src/Admin/Managed.antt =====
-- What a change of a user's role promises.
use restaurant_ordering_anal.Base.{
  ◌≤◌, ◌≡◌, refl, Bool, true, Option, none, some, JsString, js, ok, arith, inl, inr, str_eq,
  str_eq_sound, >>=-eq-ok, Bool-cases, All, length,
}
use restaurant_ordering_anal.Js.{Value, string, object, field, end}
use restaurant_ordering_anal.Js.Pattern.{matches, uuid_pattern}
use restaurant_ordering_anal.Api.Config.{Url}
use restaurant_ordering_anal.Api.Exchange.{World}
use restaurant_ordering_anal.Orders.Checkout.{is_aware_datetime}
use restaurant_ordering_anal.Admin.Client.{patch_method, admin_request_json}
use restaurant_ordering_anal.Admin.Users.{
  OrdinaryRole, ordinary_admin, ordinary_customer, role_name, AdminUserRoleUpdateResponse,
  is_user_email, parse_role_update_response, role_path, update_admin_user_role,
}
use restaurant_ordering_anal.Admin.Sent.{IsAdminRequest, admin_request_json_sound}

-- The change that was asked for, of that user, whose identifiers are compared without regard to case.
pub record IsUpdate (is_date : JsString → Bool) (lower : JsString → JsString) (user_id : JsString)
    (role : OrdinaryRole) (r : AdminUserRoleUpdateResponse) : Type 0 where
  pub same_user : lower r.id ≡ lower user_id
  pub id : matches uuid_pattern r.id ≡ true
  pub same_role : r.role ≡ role
  pub email : is_user_email r.email ≡ true
  pub updated : is_aware_datetime is_date r.updated_at ≡ true

same_role_name : (r role : OrdinaryRole) → str_eq (role_name r) (role_name role) ≡ true → r ≡ role
unfolding str_eq
same_role_name ordinary_admin ordinary_admin h = refl
same_role_name ordinary_admin ordinary_customer h = absurd (ground arith)
same_role_name ordinary_customer ordinary_admin h = absurd (ground arith)
same_role_name ordinary_customer ordinary_customer h = refl

module _ (is_date : JsString → Bool) (lower : JsString → JsString) where
  parse_role_update_response_sound :
      (user_id : JsString) (role : OrdinaryRole) (v : Value) (r : AdminUserRoleUpdateResponse)
      → parse_role_update_response is_date lower user_id role v ≡ ok r
      → IsUpdate is_date lower user_id role r
  unfolding parse_role_update_response
  parse_role_update_response_sound user_id role v r h = record {
    same_user = str_eq_sound (lower r.id) (lower user_id) (ground arith);
    id = ground arith;
    same_role = same_role_name r.role role (ground arith);
    email = ground arith;
    updated = ground arith;
  }

  -- A change of role that is reported as done is the change asked for: the answer names that user and that
  -- role; and it was asked for by at most one PATCH, at the path of that user in the administration.
  pub update_admin_user_role_sound :
      (w : World) (parse_path : JsString → Option Url) (user_id token : JsString)
      (role : OrdinaryRole) (r : AdminUserRoleUpdateResponse)
      → (update_admin_user_role w parse_path is_date lower user_id token role).1 ≡ ok r
      → (matches uuid_pattern user_id ≡ true)
        × IsUpdate is_date lower user_id role r
        × All
            (IsAdminRequest w parse_path (role_path user_id) patch_method)
            (update_admin_user_role w parse_path is_date lower user_id token role).0
        × (length (update_admin_user_role w parse_path is_date lower user_id token role).0 ≤ 1)
  unfolding update_admin_user_role
  update_admin_user_role_sound w parse_path user_id token role r h =
      elim (Bool-cases (matches uuid_pattern user_id)) [
        | inr e ↦ absurd (ground arith)
        | inl e ↦
            let body : Option Value =
              some (object (field (js "role") (string (role_name role)) end)) in
            let (v, got, parsed) =
              >>=-eq-ok
                (admin_request_json w parse_path (role_path user_id) patch_method (some token) body
                  none).1
                (parse_role_update_response is_date lower user_id role) (rw e at h) in
            let (sent, once) =
              admin_request_json_sound w parse_path (role_path user_id) patch_method (some token)
                body none in
            (e, parse_role_update_response_sound user_id role v r parsed, rw e sent, rw e once)
      ]
