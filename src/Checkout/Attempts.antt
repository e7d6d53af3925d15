-- ===== src/Checkout/Attempts.antt =====
-- What the stored checkout attempts guarantee.
use restaurant_ordering_anal.Base.{
  ◌≡◌, refl, true, false, ◌++◌, Option, some, JsString, js, arith, str_eq, str_eq_refl,
  str_eq-append, Outcome, ok, throw,
}
use restaurant_ordering_anal.Base.Maybe.{◌>>=◌, >>=-eq-some}
use restaurant_ordering_anal.Js.{
  nat, num_eq, Value, Fields, undefined, null, boolean, number, string, array, object, is_string-eq,
  is_number-eq, is_json, get, Json, Storage, get_item, set_item, Fault,
}
use restaurant_ordering_anal.Js.Keys.{has_exact_keys}
use restaurant_ordering_anal.Checkout.OrderAccess.{is_public_order_number}
use restaurant_ordering_anal.Checkout.Attempt.{
  CheckoutAttempt, checkout_attempt_storage_prefix, is_canonical_uuid_v4,
  get_checkout_attempt_storage_key, create_checkout_attempt, encode_attempt, parse_attempt,
  save_checkout_attempt, load_checkout_attempt,
}

-- An attempt that may be stored: version 1, a well-formed order number, a canonical key.
pub record IsCanonical (attempt : CheckoutAttempt) : Type 0 where
  pub version : attempt.version ≡ nat 1
  pub order : is_public_order_number attempt.public_order_number ≡ true
  pub key : is_canonical_uuid_v4 attempt.idempotency_key ≡ true

-- Every created attempt is canonical and belongs to the order that it was created for; none is created
-- for a malformed order number, or where the browser has no generator.
pub create_checkout_attempt-IsCanonical :
    (n : JsString) (random_uuid : Outcome Fault JsString) (attempt : CheckoutAttempt)
    → create_checkout_attempt n random_uuid ≡ some attempt
    → IsCanonical attempt
      × (attempt.public_order_number ≡ n)
      × (random_uuid ≡ ok attempt.idempotency_key)
unfolding create_checkout_attempt
create_checkout_attempt-IsCanonical n (throw e) attempt h = absurd (ground arith)
create_checkout_attempt-IsCanonical n (ok key) attempt h = ground arith

encode_attempt-parse :
    (attempt : CheckoutAttempt)
    → IsCanonical attempt
    → parse_attempt attempt.public_order_number (encode_attempt attempt) ≡ some attempt
unfolding parse_attempt get str_eq has_exact_keys num_eq
encode_attempt-parse attempt c = ground (arith, str_eq_refl attempt.public_order_number)

encode_attempt-is_json :
    (attempt : CheckoutAttempt) → IsCanonical attempt → is_json (encode_attempt attempt) ≡ true
unfolding is_json str_eq
encode_attempt-is_json attempt c = ground arith

-- A canonical attempt that was saved is loaded as it was, where the storage grants both calls.
pub load_checkout_attempt-save :
    (json : Json) (storage : Storage json.Text) (attempt : CheckoutAttempt)
    → IsCanonical attempt
    → storage.can_write ≡ true
    → storage.can_read ≡ true
    → load_checkout_attempt json attempt.public_order_number
        (save_checkout_attempt json attempt storage).0
      ≡ some attempt
unfolding load_checkout_attempt save_checkout_attempt get_item set_item
    get_checkout_attempt_storage_key num_eq
load_checkout_attempt-save json storage attempt c w r = ground (
  arith,
  str_eq_refl (checkout_attempt_storage_prefix ++ attempt.public_order_number),
  json.parse-stringify (encode_attempt attempt) (encode_attempt-is_json attempt c),
  encode_attempt-parse attempt c,
)

-- Saving an attempt for one order changes what is loaded for no other order.
pub load_checkout_attempt-save_other :
    (json : Json) (storage : Storage json.Text) (attempt : CheckoutAttempt) (m : JsString)
    → str_eq attempt.public_order_number m ≡ false
    → load_checkout_attempt json m (save_checkout_attempt json attempt storage).0
      ≡ load_checkout_attempt json m storage
unfolding load_checkout_attempt save_checkout_attempt get_item set_item
    get_checkout_attempt_storage_key
load_checkout_attempt-save_other json storage attempt m h =
    ground (arith, str_eq-append checkout_attempt_storage_prefix attempt.public_order_number m)

parse_attempt_sound :
    (n : JsString) (v : Value) (attempt : CheckoutAttempt)
    → is_public_order_number n ≡ true
    → parse_attempt n v ≡ some attempt
    → IsCanonical attempt
      × (attempt.public_order_number ≡ n)
      × ((fs : Fields) × (v ≡ object fs)
          × (get (js "version") fs ≡ number attempt.version)
          × (get (js "publicOrderNumber") fs ≡ string n)
          × (get (js "idempotencyKey") fs ≡ string attempt.idempotency_key))
unfolding parse_attempt
parse_attempt_sound n (object fs) attempt formed h =
    let one : attempt.version ≡ nat 1 = ground arith in
    (
      ground arith,
      ground arith,
      (
        fs,
        refl,
        rw one (is_number-eq _ _ (ground arith)),
        is_string-eq _ _ (ground arith),
        ground arith,
      ),
    )
parse_attempt_sound n undefined attempt formed h = absurd (ground arith)
parse_attempt_sound n null attempt formed h = absurd (ground arith)
parse_attempt_sound n (boolean b) attempt formed h = absurd (ground arith)
parse_attempt_sound n (number x) attempt formed h = absurd (ground arith)
parse_attempt_sound n (string x) attempt formed h = absurd (ground arith)
parse_attempt_sound n (array x) attempt formed h = absurd (ground arith)

-- The text of an entry is a record of the attempt, with its version, the order's number and the key.
abbrev pub Records : (json : Json) → JsString → CheckoutAttempt → Option json.Text → Type 0
Records json n attempt entry =
    (serialized : json.Text) × (fs : Fields) × (entry ≡ some serialized)
    × (json.parse serialized ≡ some (object fs))
    × (get (js "version") fs ≡ number attempt.version)
    × (get (js "publicOrderNumber") fs ≡ string n)
    × (get (js "idempotencyKey") fs ≡ string attempt.idempotency_key)

-- Whatever the storage holds, a loaded attempt is canonical and belongs to the order asked for, and the
-- entry of that order is a record of it: of its version, that order's number and its key.
pub load_checkout_attempt-IsCanonical :
    (json : Json) (storage : Storage json.Text) (n : JsString) (attempt : CheckoutAttempt)
    → load_checkout_attempt json n storage ≡ some attempt
    → IsCanonical attempt
      × (attempt.public_order_number ≡ n)
      × Records json n attempt (storage.entry (get_checkout_attempt_storage_key n))
unfolding load_checkout_attempt get_item
load_checkout_attempt-IsCanonical json storage n attempt h =
    let key : JsString = get_checkout_attempt_storage_key n in
    let stored : (s : json.Text) × (storage.entry key ≡ some s) = ground arith in
    let read : (json.parse stored.0 >>= parse_attempt n) ≡ some attempt = ground arith in
    let (v, parsed, good) = >>=-eq-some (json.parse stored.0) (parse_attempt n) read in
    let (canonical, same, (fs, e, version, order, key_held)) =
      parse_attempt_sound n v attempt (ground arith) good in
    (canonical, same, (stored.0, fs, stored.1, ground arith, version, order, key_held))
