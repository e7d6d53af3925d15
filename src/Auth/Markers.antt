-- ===== src/Auth/Markers.antt =====
-- frontend/src/features/auth/authStorage.ts: the marker of a demonstration session.
use restaurant_ordering_anal.Base.{
  Bool, true, false, ◌&&◌, [], ◌∷◌, Option, none, some, js, Outcome, ok, throw,
}
use restaurant_ordering_anal.Js.{
  nat, Value, string, number, object, Fields, field, end, get, as_record, is_string, is_number,
  Json, Storage, Fault, get_item, set_item,
}
use restaurant_ordering_anal.Js.Keys.{has_exact_keys}
use restaurant_ordering_anal.Auth.Tokens.{
  AuthState, attempted, remove_storage_key, demo_session_storage_key, auth_storage_version,
}

abbrev is_marker_record : Option Fields → Bool
is_marker_record none = false
is_marker_record (some fields) =
    has_exact_keys fields (js "sessionKind" ∷ js "version" ∷ [])
    && is_string (js "demo") (get (js "sessionKind") fields)
    && is_number (nat auth_storage_version) (get (js "version") fields)

-- The tests of `parseDemoSessionMarker` on the parsed text.
unfoldable pub is_marker : Value → Bool
is_marker value = is_marker_record (as_record value)

abbrev pub encode_marker : Value
encode_marker = object (
    field (js "sessionKind") (string (js "demo"))
      (field (js "version") (number (nat auth_storage_version)) end))

module _ (json : Json) where
  open json use {Text, parse, stringify}

  abbrev pub parsed_marker : Option Value → Bool
  parsed_marker none = false
  parsed_marker (some value) = is_marker value

  unfoldable pub parse_demo_session_marker : Text → Bool
  parse_demo_session_marker serialized = parsed_marker (parse serialized)

  abbrev pub found_marker : Storage Text → Bool → Bool × Storage Text
  found_marker storage true = (true, storage)
  found_marker storage false = (false, (remove_storage_key json demo_session_storage_key storage).0)

  abbrev pub read_marker : Storage Text → Outcome Fault (Option Text) → Bool × Storage Text
  read_marker storage (throw e) = (false, storage)
  read_marker storage (ok none) = (false, storage)
  read_marker storage (ok (some serialized)) =
      found_marker storage (parse_demo_session_marker serialized)

  abbrev pub load_marker : Storage Text → Option Bool → Bool × Storage Text
  load_marker storage (some remembered) = (remembered, storage)
  load_marker storage none = read_marker storage (get_item storage demo_session_storage_key)

  unfoldable pub load_demo_session_marker : AuthState Text → AuthState Text × Bool
  load_demo_session_marker s =
      let (marked, session) = load_marker s.session s.demo_session_memory in
      (record s { demo_session_memory = some marked; session = session }, marked)

  unfoldable pub save_demo_session_marker : AuthState Text → AuthState Text × Bool
  save_demo_session_marker s = (
    record s {
      demo_session_memory = some true;
      session =
          (attempted json s.session
            (set_item s.session demo_session_storage_key (stringify encode_marker))).0;
    },
    true,
  )

  unfoldable pub clear_demo_session_marker : AuthState Text → AuthState Text × Bool
  clear_demo_session_marker s =
      let (session, granted) = remove_storage_key json demo_session_storage_key s.session in
      (record s { demo_session_memory = some false; session = session }, granted)
