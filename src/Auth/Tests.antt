-- ===== src/Auth/Tests.antt =====
-- The theorems on sessions and continuations, at concrete storages and paths.
use restaurant_ordering_anal.Js.Pattern.{trim, is_space}
use restaurant_ordering_anal.Base.{
  ◌≤◌, ◌≡◌, ◌⊎◌, refl, true, false, [], ◌∷◌, Option, none, some, JsString, js, all, str_eq,
}
use restaurant_ordering_anal.Js.{Value, undefined, remove_item}
use restaurant_ordering_anal.Fixtures.{plain_json, tab}
use restaurant_ordering_anal.Auth.Tokens.{
  AuthState, auth_storage_key, encode_token, load_auth_token, save_auth_token, clear_auth_token,
  reset_auth_memory, load_legacy_auth_token, is_access_token, remove_storage_key,
}
use restaurant_ordering_anal.Auth.Cleaned.{load_auth_token_cleans, IsRecordOf}
use restaurant_ordering_anal.Auth.Memory.{
  save, clear, load, IsKept, calls, load_auth_token-reload, load_auth_token-clear_reload,
  loaded-IsKept,
}
use restaurant_ordering_anal.Auth.Navigation.{
  customer, parse_safe_next, resolve_auth_destination, starts_with, contains_unsafe_syntax,
}
use restaurant_ordering_anal.Auth.Paths.{is_path_character}
use restaurant_ordering_anal.Auth.Continuations.{parse_safe_next_sound}
use restaurant_ordering_anal.Auth.Destinations.{
  area_rank, role_rank, resolve_auth_destination_authorized,
}

abbrev fresh : Option Value → AuthState Value
fresh entry = record {
  auth_memory_token = none;
  demo_session_memory = none;
  legacy_memory_token = none;
  session = tab entry;
}

abbrev token : JsString
token = js "session-token"

load_auth_token-reload_example :
    (load_auth_token plain_json
      (reset_auth_memory plain_json (save_auth_token plain_json token (fresh none)).0)).1
    ≡ some token
unfolding is_access_token trim is_space
load_auth_token-reload_example = load_auth_token-reload plain_json (fresh none) token refl refl refl

load_auth_token-clear_reload_example :
    (load_auth_token plain_json (
      reset_auth_memory plain_json
        (clear_auth_token plain_json (fresh (some (encode_token token)))).0)).1
    ≡ none
unfolding clear_auth_token remove_storage_key remove_item
load_auth_token-clear_reload_example =
    load_auth_token-clear_reload plain_json (fresh (some (encode_token token)))

loaded-IsKept_example :
    IsKept
      (load_auth_token plain_json
        (calls plain_json (save token ∷ clear ∷ load ∷ []) (fresh (some undefined)))).1
    × IsKept
        (load_legacy_auth_token plain_json
          (calls plain_json (save token ∷ clear ∷ load ∷ []) (fresh (some undefined)))).1
loaded-IsKept_example =
    loaded-IsKept plain_json (save token ∷ clear ∷ load ∷ []) (fresh (some undefined)) refl refl

-- A storage whose entry is no record.
abbrev spoiled : AuthState Value
spoiled = fresh (some undefined)

load_auth_token_cleans_example :
    ((found : JsString) × IsRecordOf plain_json found (spoiled.session.entry auth_storage_key)
      × ((load_auth_token plain_json spoiled).1 ≡ some found)
      × ((load_auth_token plain_json spoiled).0.session.entry auth_storage_key
          ≡ spoiled.session.entry auth_storage_key))
    ⊎ (¬ ((found : JsString) × IsRecordOf plain_json found (spoiled.session.entry auth_storage_key))
        × ((load_auth_token plain_json spoiled).1 ≡ none)
        × ((load_auth_token plain_json spoiled).0.session.entry auth_storage_key ≡ none))
load_auth_token_cleans_example = load_auth_token_cleans plain_json spoiled refl refl refl

parse_safe_next_sound_example :
    (js "/cart" ≡ js "/cart")
    × (all is_path_character (js "/cart") ≡ true)
    × (starts_with (js "/") (js "/cart") ≡ true)
    × (starts_with (js "//") (js "/cart") ≡ false)
unfolding parse_safe_next contains_unsafe_syntax starts_with str_eq
parse_safe_next_sound_example = parse_safe_next_sound (js "/cart") (js "/cart") refl

resolve_auth_destination_authorized_example :
    area_rank (resolve_auth_destination (some (js "/admin/orders")) customer) ≤ role_rank customer
resolve_auth_destination_authorized_example =
    resolve_auth_destination_authorized (some (js "/admin/orders")) customer
