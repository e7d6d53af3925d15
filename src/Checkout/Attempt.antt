-- ===== src/Checkout/Attempt.antt =====
-- frontend/src/features/checkout/checkoutAttemptStorage.ts
use restaurant_ordering_anal.Base.{
  ℕ, Bool, false, not, ◌||◌, [], ◌∷◌, ◌++◌, Option, none, some, JsString, js, if◌then◌else◌,
  Outcome, ok, throw,
}
use restaurant_ordering_anal.Base.Maybe.{◌>>=◌, ◌>>◌, guard}
use restaurant_ordering_anal.Js.{
  Number, nat, num_eq, Value, string, number, object, field, end, get, as_record, as_string,
  is_string, is_number, Json, Storage, Fault, get_item, set_item,
}
use restaurant_ordering_anal.Js.Keys.{has_exact_keys}
use restaurant_ordering_anal.Js.Pattern.{matches, uuid_v4_pattern}
use restaurant_ordering_anal.Checkout.OrderAccess.{is_public_order_number, stored, loaded}

abbrev pub checkout_attempt_storage_version : ℕ
checkout_attempt_storage_version = 1

abbrev pub checkout_attempt_storage_prefix : JsString
checkout_attempt_storage_prefix = js "restaurant-ordering:checkout-attempt:v1:"

pub record CheckoutAttempt : Type 0 where
  pub idempotency_key : JsString
  pub public_order_number : JsString
  pub version : Number

unfoldable pub is_canonical_uuid_v4 : JsString → Bool
is_canonical_uuid_v4 value = matches uuid_v4_pattern value

unfoldable pub get_checkout_attempt_storage_key : JsString → JsString
get_checkout_attempt_storage_key public_order_number =
    checkout_attempt_storage_prefix ++ public_order_number

abbrev attempt_with : JsString → Outcome Fault JsString → Option CheckoutAttempt
attempt_with public_order_number (throw e) = none
attempt_with public_order_number (ok key) =
    if not (is_canonical_uuid_v4 key)
    then none
    else some (record {
      idempotency_key = key;
      public_order_number = public_order_number;
      version = nat checkout_attempt_storage_version;
    })

-- The browser's `crypto.randomUUID()` is the argument: it may be missing, and then throws.
unfoldable pub create_checkout_attempt : JsString → Outcome Fault JsString → Option CheckoutAttempt
create_checkout_attempt public_order_number random_uuid =
    if not (is_public_order_number public_order_number)
    then none
    else attempt_with public_order_number random_uuid

-- `JSON.stringify(attempt)` writes this value.
abbrev pub encode_attempt : CheckoutAttempt → Value
encode_attempt attempt = object (
    field (js "idempotencyKey") (string attempt.idempotency_key) (
      field (js "publicOrderNumber") (string attempt.public_order_number)
        (field (js "version") (number attempt.version) end)))

-- The tests of `loadCheckoutAttempt` on the parsed text.
unfoldable pub parse_attempt : JsString → Value → Option CheckoutAttempt
parse_attempt public_order_number value = do
  fields ← as_record value
  guard (has_exact_keys fields (js "idempotencyKey" ∷ js "publicOrderNumber" ∷ js "version" ∷ []))
  guard (is_number (nat checkout_attempt_storage_version) (get (js "version") fields))
  guard (is_string public_order_number (get (js "publicOrderNumber") fields))
  key ← as_string (get (js "idempotencyKey") fields)
  guard (is_canonical_uuid_v4 key)
  some (record {
    idempotency_key = key;
    public_order_number = public_order_number;
    version = nat checkout_attempt_storage_version;
  })

module _ (json : Json) where
  open json use {Text, stringify}

  unfoldable pub save_checkout_attempt : CheckoutAttempt → Storage Text → Storage Text × Bool
  save_checkout_attempt attempt storage =
      if not (num_eq attempt.version (nat checkout_attempt_storage_version))
        || not (is_public_order_number attempt.public_order_number)
        || not (is_canonical_uuid_v4 attempt.idempotency_key)
      then (storage, false)
      else stored json storage (
          set_item storage (get_checkout_attempt_storage_key attempt.public_order_number)
            (stringify (encode_attempt attempt)))

  unfoldable pub load_checkout_attempt : JsString → Storage Text → Option CheckoutAttempt
  load_checkout_attempt public_order_number storage =
      if not (is_public_order_number public_order_number)
      then none
      else loaded json (parse_attempt public_order_number)
          (get_item storage (get_checkout_attempt_storage_key public_order_number))
