-- ===== src/Checkout/Tokens.antt =====
-- What the stored access tokens guarantee.
use restaurant_ordering_anal.Base.{
  ◌≡◌, refl, true, false, ◌&&◌, ◌++◌, Option, some, JsString, js, arith, str_eq, str_eq_refl,
  str_eq-append,
}
use restaurant_ordering_anal.Base.Maybe.{◌>>=◌, >>=-eq-some}
use restaurant_ordering_anal.Js.{
  num_eq, Value, is_string-eq, Fields, undefined, null, boolean, number, string, array, object,
  is_json, get, Json, Storage, get_item, set_item,
}
use restaurant_ordering_anal.Js.Keys.{has_exact_keys}
use restaurant_ordering_anal.Checkout.OrderAccess.{
  order_access_storage_prefix, is_public_order_number, is_order_access_token,
  get_order_access_storage_key, encode_access, parse_access, save_order_access, load_order_access,
}

encode_access-parse :
    (n t : JsString) → is_order_access_token t ≡ true → parse_access n (encode_access n t) ≡ some t
unfolding parse_access get str_eq has_exact_keys num_eq
encode_access-parse n t h = ground (arith, str_eq_refl n)

encode_access-is_json : (n t : JsString) → is_json (encode_access n t) ≡ true
unfolding is_json str_eq
encode_access-is_json n t = refl

-- A saved token that is not blank is loaded for its well-formed order number, where the storage grants
-- both calls.
pub load_order_access-save :
    (json : Json) (storage : Storage json.Text) (n t : JsString)
    → is_public_order_number n ≡ true
    → is_order_access_token t ≡ true
    → storage.can_write ≡ true
    → storage.can_read ≡ true
    → load_order_access json n (save_order_access json n t storage).0 ≡ some t
unfolding load_order_access save_order_access get_item set_item get_order_access_storage_key
load_order_access-save json storage n t hn ht w r = ground (
  arith,
  str_eq_refl (order_access_storage_prefix ++ n),
  json.parse-stringify (encode_access n t) (encode_access-is_json n t),
  encode_access-parse n t ht,
)

-- Saving a token for one order changes what is loaded for no other order.
pub load_order_access-save_other :
    (json : Json) (storage : Storage json.Text) (n m t : JsString)
    → str_eq n m ≡ false
    → load_order_access json m (save_order_access json n t storage).0
      ≡ load_order_access json m storage
unfolding load_order_access save_order_access get_item set_item get_order_access_storage_key
load_order_access-save_other json storage n m t h =
    ground (arith, str_eq-append order_access_storage_prefix n m)

-- `saveOrderAccess` answers true exactly when the order number and the token are well formed and the
-- storage grants the write; when it answers false the storage is as before.
pub save_order_access_result :
    (json : Json) (storage : Storage json.Text) (n t : JsString)
    → ((save_order_access json n t storage).1
        ≡ (is_public_order_number n && is_order_access_token t && storage.can_write))
      × ((save_order_access json n t storage).1 ≡ false
          → (save_order_access json n t storage).0 ≡ storage)
unfolding save_order_access set_item
save_order_access_result json storage n t = (ground arith, λ h. ground arith)

parse_access_sound :
    (n t : JsString) (v : Value)
    → parse_access n v ≡ some t
    → (is_order_access_token t ≡ true)
      × ((fs : Fields) × (v ≡ object fs)
          × (get (js "publicOrderNumber") fs ≡ string n)
          × (get (js "token") fs ≡ string t))
unfolding parse_access
parse_access_sound n t (object fs) h =
    (ground arith, (fs, refl, is_string-eq _ _ (ground arith), ground arith))
parse_access_sound n t undefined h = absurd (ground arith)
parse_access_sound n t null h = absurd (ground arith)
parse_access_sound n t (boolean b) h = absurd (ground arith)
parse_access_sound n t (number x) h = absurd (ground arith)
parse_access_sound n t (string x) h = absurd (ground arith)
parse_access_sound n t (array x) h = absurd (ground arith)

-- The text of an entry is a record of the order and its token.
abbrev pub Holds : (json : Json) → JsString → JsString → Option json.Text → Type 0
Holds json n t entry =
    (serialized : json.Text) × (fs : Fields) × (entry ≡ some serialized)
    × (json.parse serialized ≡ some (object fs))
    × (get (js "publicOrderNumber") fs ≡ string n)
    × (get (js "token") fs ≡ string t)

-- A loaded token is not blank, belongs to a well-formed order number, and stands in the storage in a
-- record of that very order.
pub load_order_access_sound :
    (json : Json) (storage : Storage json.Text) (n t : JsString)
    → load_order_access json n storage ≡ some t
    → (is_public_order_number n ≡ true)
      × (is_order_access_token t ≡ true)
      × Holds json n t (storage.entry (get_order_access_storage_key n))
unfolding load_order_access get_item
load_order_access_sound json storage n t h =
    let key : JsString = get_order_access_storage_key n in
    let stored : (s : json.Text) × (storage.entry key ≡ some s) = ground arith in
    let read : (json.parse stored.0 >>= parse_access n) ≡ some t = ground arith in
    let (v, parsed, good) = >>=-eq-some (json.parse stored.0) (parse_access n) read in
    let (token, (fs, e, order, held)) = parse_access_sound n t v good in
    (ground arith, token, (stored.0, fs, stored.1, ground arith, order, held))
