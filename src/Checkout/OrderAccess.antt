-- ===== src/Checkout/OrderAccess.antt =====
-- frontend/src/features/checkout/orderAccessStorage.ts
use restaurant_ordering_anal.Base.{
  ℕ, Bool, true, false, not, ◌||◌, [], ◌∷◌, ◌++◌, Option, none, some, JsString, js, if◌then◌else◌,
  Outcome, ok, throw,
}
use restaurant_ordering_anal.Base.Maybe.{◌>>=◌, ◌>>◌, guard}
use restaurant_ordering_anal.Js.{
  nat, Value, string, number, object, field, end, get, as_record, as_string, is_string, is_number,
  Json, Storage, Fault, get_item, set_item,
}
use restaurant_ordering_anal.Js.Keys.{has_exact_keys}
use restaurant_ordering_anal.Js.Pattern.{matches, order_number_pattern, trim, is_empty}

abbrev pub order_access_storage_version : ℕ
order_access_storage_version = 1

abbrev pub order_access_storage_prefix : JsString
order_access_storage_prefix = js "restaurant-ordering:order-access:v1:"

-- `isPublicOrderNumber` and `isOrderAccessToken`, of a value known to be a string.
unfoldable pub is_public_order_number : JsString → Bool
is_public_order_number value = matches order_number_pattern value

unfoldable pub is_order_access_token : JsString → Bool
is_order_access_token value = not (is_empty (trim value))

unfoldable pub get_order_access_storage_key : JsString → JsString
get_order_access_storage_key public_order_number =
    order_access_storage_prefix ++ public_order_number

abbrev pub encode_access : JsString → JsString → Value
encode_access public_order_number token = object (
    field (js "publicOrderNumber") (string public_order_number) (
      field (js "token") (string token)
        (field (js "version") (number (nat order_access_storage_version)) end)))

-- The tests of `loadOrderAccess` on the parsed text.
unfoldable pub parse_access : JsString → Value → Option JsString
parse_access public_order_number value = do
  fields ← as_record value
  guard (has_exact_keys fields (js "publicOrderNumber" ∷ js "token" ∷ js "version" ∷ []))
  guard (is_number (nat order_access_storage_version) (get (js "version") fields))
  guard (is_string public_order_number (get (js "publicOrderNumber") fields))
  token ← as_string (get (js "token") fields)
  guard (is_order_access_token token)
  some token

module _ (json : Json) where
  open json use {Text, parse, stringify}

  -- What a `try … catch` around `setItem` answers.
  abbrev pub stored : Storage Text → Outcome Fault (Storage Text) → Storage Text × Bool
  stored storage (ok storage') = (storage', true)
  stored storage (throw e) = (storage, false)

  unfoldable pub save_order_access : JsString → JsString → Storage Text → Storage Text × Bool
  save_order_access public_order_number token storage =
      if not (is_public_order_number public_order_number) || not (is_order_access_token token)
      then (storage, false)
      else stored storage (
          set_item storage (get_order_access_storage_key public_order_number)
            (stringify (encode_access public_order_number token)))

  -- What a `try … catch` around `getItem` and `JSON.parse` answers.
  abbrev pub loaded : {A : Type 0} → (Value → Option A) → Outcome Fault (Option Text) → Option A
  loaded parse_value (throw e) = none
  loaded parse_value (ok none) = none
  loaded parse_value (ok (some serialized)) = parse serialized >>= parse_value

  unfoldable pub load_order_access : JsString → Storage Text → Option JsString
  load_order_access public_order_number storage =
      if not (is_public_order_number public_order_number)
      then none
      else loaded (parse_access public_order_number)
          (get_item storage (get_order_access_storage_key public_order_number))
