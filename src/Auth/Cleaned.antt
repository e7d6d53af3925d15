-- ===== src/Auth/Cleaned.antt =====
-- What a load of the session's token makes of the storage entry (authStorage.ts of
-- frontend/src/features/auth).
use restaurant_ordering_anal.Base.{
  ◌≡◌, ◌⊎◌, inl, inr, Option-cases, js, refl, sym, subst, true, [], ◌∷◌, Option, none, some,
  JsString, arith, str_eq_refl,
}
use restaurant_ordering_anal.Base.Maybe.{>>=-eq-some}
use restaurant_ordering_anal.Js.{
  num_eq, nat, Value, Fields, undefined, null, boolean, number, string, array, object, is_number-eq,
  get, Json, get_item, remove_item,
}
use restaurant_ordering_anal.Js.Keys.{has_exact_keys}
use restaurant_ordering_anal.Auth.Tokens.{
  AuthState, auth_storage_key, is_access_token, parse_token, parse_stored_token, load_auth_token,
  remove_storage_key,
}

module _ (json : Json) where
  -- The storage entry is a record of version 1, with nothing else, of that token, in the accepted form.
  abbrev pub IsRecordOf : JsString → Option json.Text → Type 0
  IsRecordOf token entry =
      (serialized : json.Text) × (fs : Fields) × (entry ≡ some serialized)
      × (json.parse serialized ≡ some (object fs))
      × (has_exact_keys fs (js "accessToken" ∷ js "version" ∷ []) ≡ true)
      × (get (js "version") fs ≡ number (nat 1))
      × (get (js "accessToken") fs ≡ string token)
      × (is_access_token token ≡ true)

  parse_token_sound :
      (v : Value) (token : JsString)
      → parse_token v ≡ some token
      → (fs : Fields) × (v ≡ object fs)
        × (has_exact_keys fs (js "accessToken" ∷ js "version" ∷ []) ≡ true)
        × (get (js "version") fs ≡ number (nat 1))
        × (get (js "accessToken") fs ≡ string token)
        × (is_access_token token ≡ true)
  unfolding parse_token
  parse_token_sound (object fs) token h =
      (fs, refl, ground arith, is_number-eq _ _ (ground arith), ground arith, ground arith)
  parse_token_sound undefined token h = absurd (ground arith)
  parse_token_sound null token h = absurd (ground arith)
  parse_token_sound (boolean b) token h = absurd (ground arith)
  parse_token_sound (number x) token h = absurd (ground arith)
  parse_token_sound (string x) token h = absurd (ground arith)
  parse_token_sound (array x) token h = absurd (ground arith)

  parse_stored_token_sound :
      (serialized : json.Text) (token : JsString)
      → parse_stored_token json serialized ≡ some token
      → IsRecordOf token (some serialized)
  unfolding parse_stored_token
  parse_stored_token_sound serialized token h =
      let (v, parsed, good) = >>=-eq-some (json.parse serialized) parse_token h in
      let (fs, e, exact, version, held, accepted) = parse_token_sound v token good in
      (serialized, fs, refl, ground arith, exact, version, held, accepted)

  parse_token_complete :
      (fs : Fields) (token : JsString)
      → has_exact_keys fs (js "accessToken" ∷ js "version" ∷ []) ≡ true
      → get (js "version") fs ≡ number (nat 1)
      → get (js "accessToken") fs ≡ string token
      → is_access_token token ≡ true
      → parse_token (object fs) ≡ some token
  unfolding parse_token num_eq
  parse_token_complete fs token exact version held accepted = ground arith

  unparsed_record :
      (serialized : json.Text)
      → parse_stored_token json serialized ≡ none
      → ¬ ((token : JsString) × IsRecordOf token (some serialized))
  unfolding parse_stored_token
  unparsed_record serialized p (token, (t, fs, e, parsed, exact, version, held, accepted)) =
      absurd (ground (arith, parse_token_complete fs token exact version held accepted))

  -- Where no token is in memory and the storage grants the read and the removal: if the entry is a record of
  -- version 1, with nothing else, of a token in the accepted form, that token is loaded and the entry stays
  -- as it was; otherwise no token is loaded, and no entry is left.
  pub load_auth_token_cleans :
      (s : AuthState json.Text)
      → s.auth_memory_token ≡ none
      → s.session.can_read ≡ true
      → s.session.can_remove ≡ true
      → ((token : JsString) × IsRecordOf token (s.session.entry auth_storage_key)
          × ((load_auth_token json s).1 ≡ some token)
          × ((load_auth_token json s).0.session.entry auth_storage_key
              ≡ s.session.entry auth_storage_key))
        ⊎ (¬ ((token : JsString) × IsRecordOf token (s.session.entry auth_storage_key))
            × ((load_auth_token json s).1 ≡ none)
            × ((load_auth_token json s).0.session.entry auth_storage_key ≡ none))
  unfolding load_auth_token get_item remove_item remove_storage_key
  load_auth_token_cleans s m r d = elim (Option-cases (s.session.entry auth_storage_key)) [
    | inl e ↦ inr (
      λ (token, (t, fs, held, parsed, exact, version, kept, accepted)). absurd (ground arith),
      ground (arith, str_eq_refl auth_storage_key),
      ground (arith, str_eq_refl auth_storage_key),
    )
    | inr (t, e) ↦ elim (Option-cases (parse_stored_token json t)) [
      | inl p ↦ inr (
        λ (token, found). unparsed_record t p (token, subst (IsRecordOf token) e found),
        ground (arith, str_eq_refl auth_storage_key),
        ground (arith, str_eq_refl auth_storage_key),
      )
      | inr (token, p) ↦
          let found = parse_stored_token_sound t token p in
          inl (token, subst (IsRecordOf token) (sym e) found, ground arith, ground arith)
    ]
  ]
