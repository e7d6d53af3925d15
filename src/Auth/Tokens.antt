-- ===== src/Auth/Tokens.antt =====
-- frontend/src/features/auth/authStorage.ts. The three module variables and the tab's storage are one
-- state; `undefined` in a module variable is `none`.
use restaurant_ordering_anal.Base.{
  ℕ, Bool, true, false, not, ◌&&◌, [], ◌∷◌, Option, none, some, JsString, js, if◌then◌else◌, any,
  Outcome, ok, throw,
}
use restaurant_ordering_anal.Base.Maybe.{◌>>=◌, ◌>>◌, guard}
use restaurant_ordering_anal.Js.{
  nat, Value, string, number, object, field, end, get, as_record, as_string, is_number, Json,
  Storage, Fault, get_item, set_item, remove_item,
}
use restaurant_ordering_anal.Js.Keys.{has_exact_keys}
use restaurant_ordering_anal.Js.Pattern.{is_space, trim, is_empty}

abbrev pub auth_storage_key : JsString
auth_storage_key = js "restaurant-ordering:auth:v1"

abbrev pub demo_session_storage_key : JsString
demo_session_storage_key = js "restaurant-ordering:demo-session:v1"

abbrev pub legacy_auth_storage_key : JsString
legacy_auth_storage_key = js "restaurant-ordering:admin-auth:v1"

abbrev pub auth_storage_version : ℕ
auth_storage_version = 1

pub record AuthState (Text : Type 0) : Type 0 where
  pub auth_memory_token : Option (Option JsString)
  pub demo_session_memory : Option Bool
  pub legacy_memory_token : Option (Option JsString)
  pub session : Storage Text

-- `isAccessToken`, of a value known to be a string.
unfoldable pub is_access_token : JsString → Bool
is_access_token value = not (is_empty (trim value)) && not (any is_space value)

-- The tests of `parseStoredToken` on the parsed text.
unfoldable pub parse_token : Value → Option JsString
parse_token value = do
  fields ← as_record value
  guard (has_exact_keys fields (js "accessToken" ∷ js "version" ∷ []))
  guard (is_number (nat auth_storage_version) (get (js "version") fields))
  token ← as_string (get (js "accessToken") fields)
  guard (is_access_token token)
  some token

abbrev pub encode_token : JsString → Value
encode_token token = object (
    field (js "accessToken") (string token)
      (field (js "version") (number (nat auth_storage_version)) end))

module _ (json : Json) where
  open json use {Text, parse, stringify}

  unfoldable pub parse_stored_token : Text → Option JsString
  parse_stored_token serialized = parse serialized >>= parse_token

  -- A `try … catch` around a write or a removal: the storage after it, and whether it was granted.
  abbrev pub attempted : Storage Text → Outcome Fault (Storage Text) → Storage Text × Bool
  attempted storage (ok storage') = (storage', true)
  attempted storage (throw e) = (storage, false)

  unfoldable pub remove_storage_key : JsString → Storage Text → Storage Text × Bool
  remove_storage_key key storage = attempted storage (remove_item storage key)

  -- The rest of `loadAuthToken` and `loadLegacyAuthToken` once the text was asked for: the token, and
  -- the storage after it.
  abbrev pub found_token :
      Storage Text → JsString → Option JsString → Option JsString × Storage Text
  found_token storage key (some token) = (some token, storage)
  found_token storage key none = (none, (remove_storage_key key storage).0)

  abbrev pub read_token :
      Storage Text → JsString → Outcome Fault (Option Text) → Option JsString × Storage Text
  read_token storage key (throw e) = (none, storage)
  read_token storage key (ok none) = (none, storage)
  read_token storage key (ok (some serialized)) =
      found_token storage key (parse_stored_token serialized)

  abbrev pub load_token :
      Storage Text → JsString → Option (Option JsString) → Option JsString × Storage Text
  load_token storage key (some remembered) = (remembered, storage)
  load_token storage key none = read_token storage key (get_item storage key)

  unfoldable pub load_auth_token : AuthState Text → AuthState Text × Option JsString
  load_auth_token s =
      let (token, session) = load_token s.session auth_storage_key s.auth_memory_token in
      (record s { auth_memory_token = some token; session = session }, token)

  unfoldable pub save_auth_token : JsString → AuthState Text → AuthState Text × Bool
  save_auth_token token s = if not (is_access_token token) then (s, false) else (
    record s {
      auth_memory_token = some (some token);
      session =
          (attempted s.session
            (set_item s.session auth_storage_key (stringify (encode_token token)))).0;
    },
    true,
  )

  unfoldable pub clear_auth_token : AuthState Text → AuthState Text × Bool
  clear_auth_token s =
      let (session, granted) = remove_storage_key auth_storage_key s.session in
      (record s { auth_memory_token = some none; session = session }, granted)

  unfoldable pub load_legacy_auth_token : AuthState Text → AuthState Text × Option JsString
  load_legacy_auth_token s =
      let (token, session) = load_token s.session legacy_auth_storage_key s.legacy_memory_token in
      (record s { legacy_memory_token = some token; session = session }, token)

  unfoldable pub clear_legacy_auth_token : AuthState Text → AuthState Text × Bool
  clear_legacy_auth_token s =
      let (session, granted) = remove_storage_key legacy_auth_storage_key s.session in
      (record s { legacy_memory_token = some none; session = session }, granted)

  unfoldable pub reset_auth_memory : AuthState Text → AuthState Text
  reset_auth_memory s = record s {
    auth_memory_token = none;
    demo_session_memory = none;
    legacy_memory_token = none;
  }
