-- ===== src/Admin/Downloads.antt =====
-- frontend/src/features/admin-exports/csvDownload.ts: the name of a downloaded file.
use restaurant_ordering_anal.Base.{
  ℕ, Bool, true, false, not, ◌&&◌, ◌||◌, List, [], ◌∷◌, Option, none, some, JsString, js,
  if◌then◌else◌, length, ltb, leb, all, str_eq, ◌==◌,
}
use restaurant_ordering_anal.Js.Pattern.{Class, matches, only, between, trim, trim_start}
use restaurant_ordering_anal.Auth.Navigation.{starts_with}
use restaurant_ordering_anal.Orders.Checkout.{to_lower}

pub data AdminExportKind : Type 0 where
  orders payments product_sales : AdminExportKind

abbrev pub max_filename_length : ℕ
max_filename_length = 128

abbrev pub fallback_filename : AdminExportKind → JsString
fallback_filename orders = js "orders.csv"
fallback_filename payments = js "payments.csv"
fallback_filename product_sales = js "product-sales.csv"

abbrev pub is_letter_or_digit : Class
is_letter_or_digit c = between b'A' b'Z' c || between b'a' b'z' c || between b'0' b'9' c

abbrev pub is_filename_character : Class
is_filename_character c = is_letter_or_digit c || c == b'.' || c == b'_' || c == b'-'

-- A letter under the flag `i`.
abbrev pub letter : ℕ → Class
letter a c = to_lower c == a

abbrev pub csv_pattern : List Class
csv_pattern = only b'.' ∷ letter b'c' ∷ letter b's' ∷ letter b'v' ∷ []

unfoldable pub ends_csv : JsString → Bool
ends_csv [] = false
ends_csv (c ∷ s) = matches csv_pattern (c ∷ s) || ends_csv s

-- `SAFE_FILENAME_PATTERN`: the characters of the ending are among those that may come before it.
unfoldable pub fits_safe_pattern : JsString → Bool
fits_safe_pattern [] = false
fits_safe_pattern (c ∷ s) = is_letter_or_digit c && all is_filename_character s && ends_csv s

-- `value.includes('..')`.
unfoldable pub has_dots : JsString → Bool
has_dots [] = false
has_dots (c ∷ s) = starts_with (js "..") (c ∷ s) || has_dots s

unfoldable pub is_safe_csv_filename : JsString → Bool
is_safe_csv_filename value =
    ltb 0 (length value)
    && leb (length value) max_filename_length
    && str_eq value (trim value)
    && not (has_dots value)
    && fits_safe_pattern value

-- What stands before the next quotation mark, and after it.
abbrev pub behind_character : ℕ → Option (JsString × JsString) → Option (JsString × JsString)
behind_character c none = none
behind_character c (some (inner, rest)) = some (c ∷ inner, rest)

unfoldable pub until_quote : JsString → Option (JsString × JsString)
until_quote [] = none
until_quote (c ∷ s) = if c == b'"' then some ([], s) else behind_character c (until_quote s)

-- A prefix under the flag `i`.
unfoldable pub strip_letters : JsString → JsString → Option JsString
strip_letters [] s = some s
strip_letters (c ∷ p) [] = none
strip_letters (c ∷ p) (d ∷ s) = if to_lower d == c then strip_letters p s else none

abbrev pub is_separated : JsString → Bool
is_separated [] = true
is_separated (c ∷ s) = c == b';'

abbrev pub closed : Option (JsString × JsString) → Option JsString
closed none = none
closed (some (inner, rest)) = if is_separated (trim_start rest) then some inner else none

abbrev pub quoted : Option JsString → Option JsString
quoted none = none
quoted (some rest) = closed (until_quote rest)

-- `\s*filename="([^"]*)"\s*(?:;|$)`, at this position.
unfoldable pub match_parameter : JsString → Option JsString
match_parameter s = quoted (strip_letters (js "filename=\"") (trim_start s))

abbrev pub or_else : Option JsString → Option JsString → Option JsString
or_else none second = second
or_else (some found) second = some found

-- The first position after a semicolon that matches.
unfoldable pub match_later : JsString → Option JsString
match_later [] = none
match_later (c ∷ s) =
    let later = match_later s in if c == b';' then or_else (match_parameter s) later else later

-- `QUOTED_FILENAME_PATTERN.exec(contentDisposition)?.[1]`.
unfoldable pub quoted_filename : JsString → Option JsString
quoted_filename s = or_else (match_parameter s) (match_later s)

abbrev pub safe_or_fallback : AdminExportKind → Option JsString → JsString
safe_or_fallback kind none = fallback_filename kind
safe_or_fallback kind (some candidate) =
    if is_safe_csv_filename candidate then candidate else fallback_filename kind

abbrev pub filename_of : AdminExportKind → Option JsString → JsString
filename_of kind none = fallback_filename kind
filename_of kind (some content_disposition) =
    safe_or_fallback kind (quoted_filename content_disposition)

unfoldable pub get_csv_download_filename : AdminExportKind → Option JsString → JsString
get_csv_download_filename kind content_disposition = filename_of kind content_disposition
