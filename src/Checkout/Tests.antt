-- ===== src/Checkout/Tests.antt =====
-- The theorems on access tokens and checkout attempts, at concrete storages.
use restaurant_ordering_anal.Js.Keys.{has_exact_keys}
use restaurant_ordering_anal.Base.{◌≡◌, refl, true, none, some, JsString, js, str_eq}
use restaurant_ordering_anal.Js.{nat, get_item, get, num_eq}
use restaurant_ordering_anal.Js.Pattern.{
  matches, order_number_pattern, order_character, uuid_v4_pattern, hex_lower, trim, is_space,
}
use restaurant_ordering_anal.Fixtures.{plain_json, tab, soup, order_number}
use restaurant_ordering_anal.Checkout.OrderAccess.{
  is_public_order_number, is_order_access_token, get_order_access_storage_key, encode_access,
  save_order_access, load_order_access, parse_access,
}
use restaurant_ordering_anal.Checkout.Attempt.{
  get_checkout_attempt_storage_key, CheckoutAttempt, is_canonical_uuid_v4, encode_attempt,
  save_checkout_attempt, load_checkout_attempt, parse_attempt,
}
use restaurant_ordering_anal.Checkout.Tokens.{
  Holds, load_order_access-save, load_order_access_sound,
}
use restaurant_ordering_anal.Checkout.Attempts.{
  IsCanonical, load_checkout_attempt-save_other, load_checkout_attempt-IsCanonical, Records,
}

abbrev other_number : JsString
other_number = js "ROA-ABCDEFGH2345"

abbrev token : JsString
token = js "guest-token"

load_order_access-save_example :
    load_order_access plain_json order_number
      (save_order_access plain_json order_number token (tab none)).0
    ≡ some token
unfolding is_public_order_number is_order_access_token matches order_number_pattern order_character
    trim is_space
load_order_access-save_example =
    load_order_access-save plain_json (tab none) order_number token refl refl refl refl

load_order_access_sound_example :
    (is_public_order_number order_number ≡ true)
    × (is_order_access_token token ≡ true)
    × Holds plain_json order_number token (
        (tab (some (encode_access order_number token))).entry
          (get_order_access_storage_key order_number))
unfolding load_order_access is_public_order_number matches order_number_pattern order_character
    get_item parse_access has_exact_keys str_eq get num_eq is_order_access_token trim is_space
load_order_access_sound_example =
    load_order_access_sound plain_json (tab (some (encode_access order_number token))) order_number
      token refl

abbrev attempt : CheckoutAttempt
attempt = record { idempotency_key = soup; public_order_number = order_number; version = nat 1 }

attempt-IsCanonical : IsCanonical attempt
unfolding is_public_order_number is_canonical_uuid_v4 matches order_number_pattern order_character
    uuid_v4_pattern hex_lower
attempt-IsCanonical = record { version = refl; order = refl; key = refl }

load_checkout_attempt-save_other_example :
    load_checkout_attempt plain_json other_number
      (save_checkout_attempt plain_json attempt (tab none)).0
    ≡ load_checkout_attempt plain_json other_number (tab none)
unfolding str_eq
load_checkout_attempt-save_other_example =
    load_checkout_attempt-save_other plain_json (tab none) attempt other_number refl

load_checkout_attempt-IsCanonical_example :
    IsCanonical attempt
    × (attempt.public_order_number ≡ order_number)
    × Records plain_json order_number attempt (
        (tab (some (encode_attempt attempt))).entry (get_checkout_attempt_storage_key order_number))
unfolding load_checkout_attempt is_public_order_number matches order_number_pattern order_character
    get_item parse_attempt has_exact_keys str_eq get num_eq is_canonical_uuid_v4 uuid_v4_pattern
    hex_lower
load_checkout_attempt-IsCanonical_example =
    load_checkout_attempt-IsCanonical plain_json (tab (some (encode_attempt attempt))) order_number
      attempt refl
