-- ===== src/Auth/Memory.antt =====
-- What the module variables and the tab's storage guarantee together.
use restaurant_ordering_anal.Base.{
  ◌≡◌, if◌then◌else◌, refl, sym, subst, true, List, [], ◌∷◌, Option, none, some, JsString, arith,
  str_eq, str_eq_refl, Outcome, ok, throw,
}
use restaurant_ordering_anal.Base.Maybe.{>>=-eq-some}
use restaurant_ordering_anal.Js.{
  num_eq, Value, get, is_json, Json, Storage, Fault, get_item, set_item, remove_item,
}
use restaurant_ordering_anal.Js.Keys.{has_exact_keys}
use restaurant_ordering_anal.Auth.Tokens.{
  AuthState, auth_storage_key, legacy_auth_storage_key, is_access_token, parse_token, encode_token,
  parse_stored_token, found_token, read_token, load_token, load_auth_token, save_auth_token,
  remove_storage_key, clear_auth_token, load_legacy_auth_token, clear_legacy_auth_token,
  reset_auth_memory,
}
use restaurant_ordering_anal.Auth.Markers.{
  load_demo_session_marker, save_demo_session_marker, clear_demo_session_marker,
}

-- A token that is kept is not blank and holds no white space.
abbrev pub IsKept : Option JsString → Type 0
IsKept none = Unit {0}
IsKept (some token) = is_access_token token ≡ true

abbrev pub IsRemembered : Option (Option JsString) → Type 0
IsRemembered none = Unit {0}
IsRemembered (some token) = IsKept token

pub record IsSafe {Text : Type 0} (s : AuthState Text) : Type 0 where
  pub auth : IsRemembered s.auth_memory_token
  pub legacy : IsRemembered s.legacy_memory_token

-- The calls that the application makes.
pub data AuthCall : Type 0 where
  load load_legacy load_marked clear clear_legacy clear_marked save_marked reset : AuthCall
  save : JsString → AuthCall

parse_token-accepted :
    (v : Value) (token : JsString) → parse_token v ≡ some token → is_access_token token ≡ true
unfolding parse_token
parse_token-accepted v token h = ground arith

IsKept-of :
    (o : Option JsString) → ((t : JsString) → o ≡ some t → is_access_token t ≡ true) → IsKept o
IsKept-of none h = tt
IsKept-of (some t) h = h t refl

module _ (json : Json) where
  abbrev pub call : AuthCall → AuthState json.Text → AuthState json.Text
  call load s = (load_auth_token json s).0
  call load_legacy s = (load_legacy_auth_token json s).0
  call load_marked s = (load_demo_session_marker json s).0
  call clear s = (clear_auth_token json s).0
  call clear_legacy s = (clear_legacy_auth_token json s).0
  call clear_marked s = (clear_demo_session_marker json s).0
  call save_marked s = (save_demo_session_marker json s).0
  call reset s = reset_auth_memory json s
  call (save token) s = (save_auth_token json token s).0

  abbrev pub calls : List AuthCall → AuthState json.Text → AuthState json.Text
  calls [] s = s
  calls (c ∷ cs) s = calls cs (call c s)

  -- A second load answers as the first did and changes nothing.
  pub load_auth_token_twice :
      (s : AuthState json.Text)
      → load_auth_token json (load_auth_token json s).0
        ≡ ((load_auth_token json s).0, (load_auth_token json s).1)
  unfolding load_auth_token
  load_auth_token_twice s = refl

  -- A token in the accepted form is loaded right after it was saved, whatever the storage refuses.
  pub load_auth_token-save :
      (s : AuthState json.Text) (token : JsString)
      → is_access_token token ≡ true
      → (load_auth_token json (save_auth_token json token s).0).1 ≡ some token
  unfolding load_auth_token save_auth_token
  load_auth_token-save s token h = ground arith

  -- After a sign-out no token is loaded, even where the storage keeps its entry.
  pub load_auth_token-clear :
      (s : AuthState json.Text) → (load_auth_token json (clear_auth_token json s).0).1 ≡ none
  unfolding load_auth_token clear_auth_token
  load_auth_token-clear s = refl

  encode_token-parse :
      (token : JsString)
      → is_access_token token ≡ true
      → parse_token (encode_token token) ≡ some token
  unfolding parse_token get str_eq has_exact_keys num_eq
  encode_token-parse token h = ground arith

  encode_token-is_json : (token : JsString) → is_json (encode_token token) ≡ true
  unfolding is_json str_eq
  encode_token-is_json token = refl

  -- A saved token in the accepted form survives a reload of the page (which empties the memory), where the
  -- storage grants the write and the read.
  pub load_auth_token-reload :
      (s : AuthState json.Text) (token : JsString)
      → is_access_token token ≡ true
      → s.session.can_write ≡ true
      → s.session.can_read ≡ true
      → (load_auth_token json (reset_auth_memory json (save_auth_token json token s).0)).1
        ≡ some token
  unfolding load_auth_token save_auth_token reset_auth_memory get_item set_item parse_stored_token
  load_auth_token-reload s token h w r = ground (
    arith,
    str_eq_refl auth_storage_key,
    json.parse-stringify (encode_token token) (encode_token-is_json token),
    encode_token-parse token h,
  )

  -- Clearing reports whether the session is gone for good: after a reload of the page no token is loaded
  -- where it reported true, and the one that would have been loaded without it where it reported false.
  pub load_auth_token-clear_reload :
      (s : AuthState json.Text)
      → (load_auth_token json (reset_auth_memory json (clear_auth_token json s).0)).1 ≡ (
          if (clear_auth_token json s).1
          then none
          else (load_auth_token json (reset_auth_memory json s)).1)
  unfolding load_auth_token clear_auth_token reset_auth_memory get_item remove_item
      remove_storage_key
  load_auth_token-clear_reload s = ground (arith, str_eq_refl auth_storage_key)

  found_token-IsKept :
      (storage : Storage json.Text) (key : JsString) (o : Option JsString)
      → IsKept o
      → IsKept (found_token json storage key o).0
  found_token-IsKept storage key none h = tt
  found_token-IsKept storage key (some t) h = h

  parse_stored_token-IsKept : (serialized : json.Text) → IsKept (parse_stored_token json serialized)
  unfolding parse_stored_token
  parse_stored_token-IsKept serialized = IsKept-of _ λ t h.
      let (v, _, parsed) = >>=-eq-some (json.parse serialized) parse_token h in
      parse_token-accepted v t parsed

  read_token-IsKept :
      (storage : Storage json.Text) (key : JsString) (o : Outcome Fault (Option json.Text))
      → IsKept (read_token json storage key o).0
  read_token-IsKept storage key (throw e) = tt
  read_token-IsKept storage key (ok none) = tt
  read_token-IsKept storage key (ok (some t)) =
      found_token-IsKept storage key _ (parse_stored_token-IsKept t)

  pub load_token-IsKept :
      (storage : Storage json.Text) (key : JsString) (memory : Option (Option JsString))
      → IsRemembered memory
      → IsKept (load_token json storage key memory).0
  load_token-IsKept storage key none h = read_token-IsKept storage key (get_item storage key)
  load_token-IsKept storage key (some token) h = h

  save_auth_token-IsSafe :
      (s : AuthState json.Text) (token : JsString)
      → IsSafe s
      → IsSafe (save_auth_token json token s).0
  unfolding save_auth_token
  save_auth_token-IsSafe s token h = ground arith

  call-IsSafe : (c : AuthCall) (s : AuthState json.Text) → IsSafe s → IsSafe (call c s)
  unfolding load_auth_token load_legacy_auth_token load_demo_session_marker clear_auth_token
      clear_legacy_auth_token clear_demo_session_marker save_demo_session_marker reset_auth_memory
  call-IsSafe load s h = record {
    auth = load_token-IsKept s.session auth_storage_key s.auth_memory_token h.auth;
    legacy = h.legacy;
  }
  call-IsSafe load_legacy s h = record {
    auth = h.auth;
    legacy = load_token-IsKept s.session legacy_auth_storage_key s.legacy_memory_token h.legacy;
  }
  call-IsSafe (save token) s h = save_auth_token-IsSafe s token h
  call-IsSafe load_marked s h = record { auth = h.auth; legacy = h.legacy }
  call-IsSafe clear s h = record { auth = tt; legacy = h.legacy }
  call-IsSafe clear_legacy s h = record { auth = h.auth; legacy = tt }
  call-IsSafe clear_marked s h = record { auth = h.auth; legacy = h.legacy }
  call-IsSafe save_marked s h = record { auth = h.auth; legacy = h.legacy }
  call-IsSafe reset s h = record { auth = tt; legacy = tt }

  calls-IsSafe : (cs : List AuthCall) (s : AuthState json.Text) → IsSafe s → IsSafe (calls cs s)
  calls-IsSafe [] s h = h
  calls-IsSafe (c ∷ cs) s h = calls-IsSafe cs (call c s) (call-IsSafe c s h)

  -- After any calls on a freshly loaded page, whatever the storage holds, a token that is loaded, as
  -- the session's or as the legacy one, is not blank and holds no white space.
  pub loaded-IsKept :
      (cs : List AuthCall) (s : AuthState json.Text)
      → s.auth_memory_token ≡ none
      → s.legacy_memory_token ≡ none
      → IsKept (load_auth_token json (calls cs s)).1
        × IsKept (load_legacy_auth_token json (calls cs s)).1
  unfolding load_auth_token load_legacy_auth_token
  loaded-IsKept cs s a l =
      let start : IsSafe s = record {
        auth = subst IsRemembered (sym a) tt;
        legacy = subst IsRemembered (sym l) tt;
      } in
      let safe = calls-IsSafe cs s start in
      (
        load_token-IsKept (calls cs s).session auth_storage_key _ safe.auth,
        load_token-IsKept (calls cs s).session legacy_auth_storage_key _ safe.legacy,
      )
