-- ===== src/Js/Values.antt =====
-- JavaScript values as they come out of `JSON.parse` and `response.json()`, with `undefined` for what
-- a missing property reads as.
use restaurant_ordering_anal.Base.{
  ℕ, ◌≡◌, Bool, true, false, not, ◌&&◌, List, [], ◌∷◌, Option, none, some, JsString, str_eq,
  str_eq_sound, ap, arith, if◌then◌else◌, leb, one_of,
}
use restaurant_ordering_anal.Js.Numbers.{
  Number, nat, infinity, neg_infinity, nan, num_eq, num_eq-nat,
}

mutual
  pub data Value : Type 0 where
    undefined null : Value
    boolean : Bool → Value
    number : Number → Value
    string : JsString → Value
    array : Items → Value
    object : Fields → Value

  -- The properties of an object in their order of insertion.
  pub data Fields : Type 0 where
    field : JsString → Value → Fields → Fields
    end : Fields

  pub data Items : Type 0 where
    cons : Value → Items → Items
    nil : Items

abbrev pub elements : Items → List Value
elements nil = []
elements (cons v vs) = v ∷ elements vs

abbrev pub from_elements : List Value → Items
from_elements [] = nil
from_elements (v ∷ vs) = cons v (from_elements vs)

-- `Object.keys(value)`.
abbrev pub keys : Fields → List JsString
keys end = []
keys (field k v fs) = k ∷ keys fs

-- `value.key`.
unfoldable pub get : JsString → Fields → Value
get k end = undefined
get k (field j v fs) = if str_eq j k then v else get k fs

-- `typeof value === 'object' && value !== null && !Array.isArray(value)`: the properties if so.
abbrev pub as_record : Value → Option Fields
as_record (object fs) = some fs
as_record _ = none

abbrev pub as_string : Value → Option JsString
as_string (string s) = some s
as_string _ = none

abbrev pub as_number : Value → Option Number
as_number (number n) = some n
as_number _ = none

abbrev pub as_array : Value → Option (List Value)
as_array (array vs) = some (elements vs)
as_array _ = none

-- `value === s` and `value === n` for a string and a number.
abbrev pub is_string : JsString → Value → Bool
is_string s (string t) = str_eq t s
is_string s _ = false

abbrev pub is_number : Number → Value → Bool
is_number n (number m) = num_eq m n
is_number n _ = false

abbrev is_digit : ℕ → Bool
is_digit c = leb b'0' c && leb c b'9'

-- Keys that start with a digit are left out: those that are array indices change their place.
abbrev is_plain_key : JsString → Bool
is_plain_key [] = true
is_plain_key (c ∷ s) = not (is_digit c)

abbrev is_finite : Number → Bool
is_finite infinity = false
is_finite neg_infinity = false
is_finite nan = false
is_finite _ = true

-- The values that `JSON.stringify` writes without loss and in order.
unfoldable mutual
  pub is_json : Value → Bool
  is_json undefined = false
  is_json null = true
  is_json (boolean b) = true
  is_json (number n) = is_finite n
  is_json (string s) = true
  is_json (array vs) = all_json vs
  is_json (object fs) = fields_json fs

  pub all_json : Items → Bool
  all_json nil = true
  all_json (cons v vs) = is_json v && all_json vs

  pub fields_json : Fields → Bool
  fields_json end = true
  fields_json (field k v fs) =
      is_plain_key k && not (one_of (keys fs) k) && is_json v && fields_json fs

pub is_string-eq : (s : JsString) (v : Value) → is_string s v ≡ true → v ≡ string s
is_string-eq s (string t) h = ap string (str_eq_sound t s h)
is_string-eq s undefined h = absurd (ground arith)
is_string-eq s null h = absurd (ground arith)
is_string-eq s (boolean b) h = absurd (ground arith)
is_string-eq s (number x) h = absurd (ground arith)
is_string-eq s (array x) h = absurd (ground arith)
is_string-eq s (object x) h = absurd (ground arith)

pub is_number-eq : (k : ℕ) (v : Value) → is_number (nat k) v ≡ true → v ≡ number (nat k)
is_number-eq k (number x) h = ap number (num_eq-nat x k h)
is_number-eq k undefined h = absurd (ground arith)
is_number-eq k null h = absurd (ground arith)
is_number-eq k (boolean b) h = absurd (ground arith)
is_number-eq k (string x) h = absurd (ground arith)
is_number-eq k (array x) h = absurd (ground arith)
is_number-eq k (object x) h = absurd (ground arith)
