-- ===== src/Admin/Filenames.antt =====
-- What the name of a downloaded file may be.
use restaurant_ordering_anal.Base.{
  true, false, ◌||◌, [], ◌∷◌, Option, none, some, JsString, js, length, all, any, ◌==◌, ◌≡◌, ◌≤◌,
  arith, refl,
}
use restaurant_ordering_anal.Js.Pattern.{Class, matches}
use restaurant_ordering_anal.Auth.Navigation.{starts_with, is_control}
use restaurant_ordering_anal.Admin.Downloads.{
  AdminExportKind, orders, payments, product_sales, max_filename_length, fallback_filename,
  is_filename_character, ends_csv, fits_safe_pattern, is_safe_csv_filename, quoted_filename,
  safe_or_fallback, get_csv_download_filename,
}

-- A separator of folders or of drives, a quotation mark or a control character.
abbrev pub is_risky : Class
is_risky c = c == b'/' || c == b'\\' || c == b':' || c == b'"' || is_control c

unrisky : (s : JsString) → all is_filename_character s ≡ true → any is_risky s ≡ false
unrisky [] h = refl
unrisky (c ∷ s) h = ground (arith, unrisky s)

-- What may be written to a folder of downloads.
pub record IsFilename (name : JsString) : Type 0 where
  pub short : length name ≤ max_filename_length
  pub csv : ends_csv name ≡ true
  pub plain_text : any is_risky name ≡ false
  pub visible : starts_with (js ".") name ≡ false

safe-IsFilename : (name : JsString) → is_safe_csv_filename name ≡ true → IsFilename name
unfolding is_safe_csv_filename fits_safe_pattern ends_csv starts_with
safe-IsFilename [] h = absurd (ground arith)
safe-IsFilename (c ∷ s) h = record {
  short = ground arith;
  csv = ground arith;
  plain_text = ground (arith, unrisky s);
  visible = ground arith;
}

fallback-IsFilename : (kind : AdminExportKind) → IsFilename (fallback_filename kind)
unfolding ends_csv starts_with matches
fallback-IsFilename orders = record {
  short = omega arith;
  csv = refl;
  plain_text = refl;
  visible = refl;
}
fallback-IsFilename payments = record {
  short = omega arith;
  csv = refl;
  plain_text = refl;
  visible = refl;
}
fallback-IsFilename product_sales = record {
  short = omega arith;
  csv = refl;
  plain_text = refl;
  visible = refl;
}

safe_or_fallback-IsFilename :
    (kind : AdminExportKind) (o : Option JsString) → IsFilename (safe_or_fallback kind o)
safe_or_fallback-IsFilename kind none = fallback-IsFilename kind
safe_or_fallback-IsFilename kind (some candidate) =
    ground (arith, safe-IsFilename candidate, fallback-IsFilename kind)

-- Whatever header a server sends, the name of the file has at most 128 characters, ends in `.csv`, holds
-- no separator of folders or drives, no quotation mark and no control character, and does not start
-- with a dot.
pub get_csv_download_filename_sound :
    (kind : AdminExportKind) (content_disposition : Option JsString)
    → IsFilename (get_csv_download_filename kind content_disposition)
unfolding get_csv_download_filename
get_csv_download_filename_sound kind none = fallback-IsFilename kind
get_csv_download_filename_sound kind (some content) =
    safe_or_fallback-IsFilename kind (quoted_filename content)
