-- ===== src/Account/Asked.antt =====
-- What the account's client asks for is what the authenticated client lets through.
use mathlib.Core.List.{append-nil}
use restaurant_ordering_anal.Base.{
  ℕ, ◌≤◌, ◌≡◌, Bool, true, false, List, [], ◌∷◌, ◌++◌, Option, some, JsString, js, any, all, arith,
  refl, ok, str_eq, str_eq_complete, ◌==◌,
}
use restaurant_ordering_anal.Js.{max_safe_integer}
use restaurant_ordering_anal.Js.Pattern.{digit, split_on, strip_prefix}
use restaurant_ordering_anal.Auth.Navigation.{starts_with, is_control}
use restaurant_ordering_anal.Api.Config.{Url}
use restaurant_ordering_anal.Api.Authenticated.{
  path_validation_origin, account_orders_path, validate_authenticated_path,
  is_allowed_account_orders_path, are_segments, match_segment, is_numeral, limit, offset,
}
use restaurant_ordering_anal.Account.Pages.{numeral, page_path}
use restaurant_ordering_anal.Account.Numerals.{numeral-digits, decimal-numeral, numeral-is_numeral}

-- Digits hold no separator, no escape and no control character.
pub any-digits :
    (test : ℕ → Bool) (s t : JsString)
    → ((c : ℕ) → digit c ≡ true → test c ≡ false)
    → all digit s ≡ true
    → any test (s ++ t) ≡ any test t
any-digits test [] t h k = refl
any-digits test (c ∷ s) t h k = ground (arith, h c, any-digits test s t h)

split_on-digits :
    (s t : JsString) (part : JsString) (parts : List JsString)
    → all digit s ≡ true
    → split_on b'&' t ≡ part ∷ parts
    → split_on b'&' (s ++ t) ≡ (s ++ part) ∷ parts
unfolding split_on digit
split_on-digits [] t part parts k e = e
split_on-digits (c ∷ s) t part parts k e = ground (arith, split_on-digits s t part parts)

strip_prefix-append : (p s : JsString) → strip_prefix p (p ++ s) ≡ some s
unfolding strip_prefix
strip_prefix-append [] s = refl
strip_prefix-append (c ∷ p) s = ground (arith, strip_prefix-append p s)

limit-segment :
    (s : JsString) → is_numeral s ≡ true → match_segment (js "limit=" ++ s) ≡ some (limit, s)
unfolding match_segment
limit-segment s h = rw (strip_prefix-append (js "limit=") s, h) refl

offset-segment :
    (s : JsString) → is_numeral s ≡ true → match_segment (js "offset=" ++ s) ≡ some (offset, s)
unfolding match_segment strip_prefix
offset-segment s h = rw h refl

split_on-numeral : (s : JsString) → all digit s ≡ true → split_on b'&' s ≡ s ∷ []
unfolding split_on digit
split_on-numeral [] h = refl
split_on-numeral (c ∷ s) h = ground (arith, split_on-numeral s)

no-digits :
    (test : ℕ → Bool) (s : JsString)
    → ((c : ℕ) → digit c ≡ true → test c ≡ false)
    → all digit s ≡ true
    → any test s ≡ false
no-digits test [] h k = refl
no-digits test (c ∷ s) h k = ground (arith, h c, no-digits test s h)

-- The query of a page.
abbrev page_query : JsString → JsString → JsString
page_query l o = js "limit=" ++ (l ++ (js "&offset=" ++ o))

split_on-page_query :
    (l o : JsString)
    → all digit l ≡ true
    → all digit o ≡ true
    → split_on b'&' (page_query l o) ≡ (js "limit=" ++ l) ∷ (js "offset=" ++ o) ∷ []
unfolding split_on
split_on-page_query l o hl ho =
    let last : split_on b'&' (js "&offset=" ++ o) ≡ [] ∷ (js "offset=" ++ o) ∷ [] =
      rw (split_on-numeral o ho) refl in
    rw (split_on-digits l (js "&offset=" ++ o) [] _ hl last, append-nil l) refl

are_segments-page :
    (l o : ℕ)
    → 1 ≤ l
    → l ≤ 100
    → o ≤ max_safe_integer
    → are_segments [] ((js "limit=" ++ numeral l) ∷ (js "offset=" ++ numeral o) ∷ []) ≡ true
unfolding are_segments
are_segments-page l o h1 h2 h3 =
    rw
      (
        limit-segment (numeral l) (numeral-is_numeral l),
        offset-segment (numeral o) (numeral-is_numeral o),
        decimal-numeral l,
        decimal-numeral o,
      )
      (ground arith)

any-page_query :
    (test : ℕ → Bool) (l o : JsString)
    → ((c : ℕ) → digit c ≡ true → test c ≡ false)
    → all digit l ≡ true
    → all digit o ≡ true
    → any test (js "limit=&offset=") ≡ false
    → any test (page_query l o) ≡ false
any-page_query test l o h hl ho k =
    ground (arith, any-digits test l (js "&offset=" ++ o) h hl, no-digits test o h ho)

any-page_path :
    (test : ℕ → Bool) (l o : ℕ)
    → ((c : ℕ) → digit c ≡ true → test c ≡ false)
    → any test (js "/api/v1/account/orders?limit=&offset=") ≡ false
    → any test (page_path l o) ≡ false
unfolding page_path
any-page_path test l o h k =
    ground
      (arith, any-page_query test (numeral l) (numeral o) h (numeral-digits l) (numeral-digits o))

not_digit : (d c : ℕ) → digit d ≡ false → digit c ≡ true → (c == d) ≡ false
unfolding digit
not_digit d c h k = ground arith

not_control : (c : ℕ) → digit c ≡ true → is_control c ≡ false
unfolding digit
not_control c k = ground arith

module _ (parse_path : JsString → Option Url) (url : Url) where
  page-allowed :
      (l o : ℕ)
      → 1 ≤ l
      → l ≤ 100
      → o ≤ max_safe_integer
      → url.pathname ≡ account_orders_path
      → is_allowed_account_orders_path (page_path l o) url ≡ true
  unfolding is_allowed_account_orders_path page_path strip_prefix str_eq
  page-allowed l o h1 h2 h3 h = ground (
    arith,
    are_segments-page l o h1 h2 h3,
    split_on-page_query (numeral l) (numeral o) (numeral-digits l) (numeral-digits o),
    str_eq_complete url.pathname account_orders_path h,
  )

  -- A page with a limit from 1 to 100 and a safe offset passes the client's test on paths, where `new URL`
  -- resolves it to the path of the orders at the origin that it is given, without a fragment.
  pub validate-page_path :
      (l o : ℕ)
      → 1 ≤ l
      → l ≤ 100
      → o ≤ max_safe_integer
      → parse_path (page_path l o) ≡ some url
      → url.origin ≡ path_validation_origin
      → url.hash ≡ []
      → url.pathname ≡ account_orders_path
      → validate_authenticated_path parse_path (page_path l o) ≡ ok tt
  unfolding validate_authenticated_path page_path starts_with digit
  validate-page_path l o h1 h2 h3 e f g h = ground (
    arith,
    page-allowed l o h1 h2 h3 h,
    any-page_path (λ d. d == b'\\') l o (λ c. not_digit b'\\' c refl) refl,
    any-page_path (λ d. d == b'%') l o (λ c. not_digit b'%' c refl) refl,
    any-page_path is_control l o not_control refl,
    str_eq_complete url.origin path_validation_origin f,
    e,
    g,
  )
