-- ===== src/Js/Pattern.antt =====
-- The regular expressions of the code that have one fixed length, as a list of character classes; the
-- white space of `\s` and `trim`; digits.
use restaurant_ordering_anal.Base.{
  Option, none, some, ℕ, Bool, true, false, ◌&&◌, ◌||◌, List, [], ◌∷◌, ◌++◌, leb, ◌==◌, JsString,
  replicate, if◌then◌else◌,
}

abbrev pub Class : Type 0
Class = ℕ → Bool

-- `^…$` with one class for each character.
unfoldable pub matches : List Class → JsString → Bool
matches [] [] = true
matches (p ∷ ps) (c ∷ s) = p c && matches ps s
matches _ _ = false

abbrev pub between : ℕ → ℕ → Class
between lo hi c = leb lo c && leb c hi

unfoldable pub digit : Class
digit c = between b'0' b'9' c

-- `[0-9a-f]`, and the same under the flag `i`.
unfoldable pub hex_lower : Class
hex_lower c = between b'0' b'9' c || between b'a' b'f' c

unfoldable pub hex : Class
hex c = between b'0' b'9' c || between b'a' b'f' c || between b'A' b'F' c

unfoldable pub upper : Class
upper c = between b'A' b'Z' c

-- `[23456789ABCDEFGHJKLMNPQRSTUVWXYZ]`.
unfoldable pub order_character : Class
order_character c =
    between b'2' b'9' c || between b'A' b'H' c || between b'J' b'N' c || between b'P' b'Z' c

abbrev pub only : ℕ → Class
only a c = c == a

-- `/^[0-9a-f]{8}-[0-9a-f]{4}-[0-9a-f]{4}-[0-9a-f]{4}-[0-9a-f]{12}$/i`.
unfoldable pub uuid_pattern : List Class
uuid_pattern =
    replicate 8 hex
    ++ (only b'-' ∷ replicate 4 hex
        ++ (only b'-' ∷ replicate 4 hex
            ++ (only b'-' ∷ replicate 4 hex ++ (only b'-' ∷ replicate 12 hex))))

-- `/^[0-9a-f]{8}-[0-9a-f]{4}-4[0-9a-f]{3}-[89ab][0-9a-f]{3}-[0-9a-f]{12}$/`.
unfoldable pub uuid_v4_pattern : List Class
uuid_v4_pattern =
    replicate 8 hex_lower
    ++ (only b'-' ∷ replicate 4 hex_lower
        ++ (only b'-' ∷ only b'4' ∷ replicate 3 hex_lower
            ++ (only b'-'
                  ∷ (λ c. between b'8' b'9' c || between b'a' b'b' c)
                  ∷ replicate 3 hex_lower
                ++ (only b'-' ∷ replicate 12 hex_lower))))

-- `/^ROA-[23456789ABCDEFGHJKLMNPQRSTUVWXYZ]{12}$/`.
unfoldable pub order_number_pattern : List Class
order_number_pattern = only b'R' ∷ only b'O' ∷ only b'A' ∷ only b'-' ∷ replicate 12 order_character

-- `/^[A-Z]{3}$/`.
unfoldable pub currency_pattern : List Class
currency_pattern = replicate 3 upper

-- The white space and line terminators of ECMAScript.
unfoldable pub is_space : Class
is_space c =
    between 9 13 c
    || c == 32
    || c == 160
    || c == 5760
    || between 8192 8202 c
    || between 8232 8233 c
    || c == 8239
    || c == 8287
    || c == 12288
    || c == 65279

unfoldable pub trim_start : JsString → JsString
trim_start [] = []
trim_start (c ∷ s) = if is_space c then trim_start s else c ∷ s

abbrev keep_unless_blank : ℕ → JsString → JsString
keep_unless_blank c [] = if is_space c then [] else c ∷ []
keep_unless_blank c (d ∷ s) = c ∷ d ∷ s

unfoldable pub trim_end : JsString → JsString
trim_end [] = []
trim_end (c ∷ s) = keep_unless_blank c (trim_end s)

-- `value.trim()`.
unfoldable pub trim : JsString → JsString
unfolding trim_start trim_end
trim s = trim_end (trim_start s)

abbrev pub is_empty : JsString → Bool
is_empty [] = true
is_empty (c ∷ s) = false

abbrev pub push : ℕ → List JsString → List JsString
push c [] = (c ∷ []) ∷ []
push c (part ∷ parts) = (c ∷ part) ∷ parts

-- `value.split(separator)` for a separator of one character.
unfoldable pub split_on : ℕ → JsString → List JsString
split_on separator [] = [] ∷ []
split_on separator (c ∷ s) =
    let rest = split_on separator s in if c == separator then [] ∷ rest else push c rest

-- What follows a prefix, if the value starts with it.
unfoldable pub strip_prefix : JsString → JsString → Option JsString
strip_prefix [] s = some s
strip_prefix (c ∷ p) [] = none
strip_prefix (c ∷ p) (d ∷ s) = if c == d then strip_prefix p s else none
