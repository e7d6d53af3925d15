-- ===== src/Api/Origins.antt =====
-- Which texts `PUBLIC_HTTPS_ORIGIN_PATTERN` of frontend/src/api/client.ts lets through.
use restaurant_ordering_anal.Base.{
  ℕ, ◌+◌, ◌≡◌, ◌≢◌, Bool, true, false, not, ◌&&◌, ◌||◌, [], ◌∷◌, ◌++◌, some, JsString, js, map,
  if◌then◌else◌, ◌==◌, arith, refl, ap, ◌∙◌, inl, inr, Bool-cases, Option-cases,
}
use restaurant_ordering_anal.Js.Pattern.{digit, is_space, between}
use restaurant_ordering_anal.Api.Config.{
  letter, after_https, after_literal, at_end, digits_then_end, port_then_end, host_then_end,
  bracket_then_end, is_host, is_public_https_origin,
}

-- What would begin a path, a query, a fragment or the host after credentials, or end the text.
abbrev pub separates : ℕ → Bool
separates c = c == b'/' || c == b'?' || c == b'#' || c == b'@' || c == b'\\' || is_space c

-- No character separates, but for a slash at the very end.
abbrev pub is_plain : JsString → Bool
is_plain [] = true
is_plain (c ∷ []) = not (separates c) || c == b'/'
is_plain (c ∷ d ∷ s) = not (separates c) && is_plain (d ∷ s)

-- The case of an ASCII letter, and that of the long s.
abbrev pub fold_case : ℕ → ℕ
fold_case c = if between b'A' b'Z' c then c + 32 else if c == 0x17f then b's' else c

-- `https://` in any case, and then a host, with a port or without.
abbrev pub IsHttpsText : JsString → Type 0
IsHttpsText text =
    (scheme : JsString) × (first : ℕ) × (rest : JsString) × (text ≡ scheme ++ (first ∷ rest))
    × (map fold_case scheme ≡ js "https://")
    × (separates first ≡ false)
    × (is_plain (first ∷ rest) ≡ true)

is_plain-cons :
    (c : ℕ) (s : JsString) → separates c ≡ false → is_plain s ≡ true → is_plain (c ∷ s) ≡ true
is_plain-cons c [] n h = ground arith
is_plain-cons c (d ∷ s) n h = ground arith

at_end-plain : (s : JsString) → at_end s ≡ true → is_plain s ≡ true
at_end-plain [] h = refl
at_end-plain (c ∷ []) h = ground arith
at_end-plain (c ∷ d ∷ s) h = absurd (cc)

digit-plain : (c : ℕ) → digit c ≡ true → separates c ≡ false
unfolding digit is_space
digit-plain c h = ground arith

digits_then_end-plain : (s : JsString) → digits_then_end s ≡ true → is_plain s ≡ true
unfolding digits_then_end
digits_then_end-plain [] h = refl
digits_then_end-plain (c ∷ s) h = elim (Bool-cases (digit c)) [
  | inl d ↦ is_plain-cons c s (digit-plain c d) (digits_then_end-plain s (rw d at h))
  | inr d ↦ at_end-plain (c ∷ s) (rw d at h)
]

colon-plain : (c : ℕ) → (c == b':') ≡ true → separates c ≡ false
unfolding is_space
colon-plain c h = ground arith

port_then_end-plain : (s : JsString) → port_then_end s ≡ true → is_plain s ≡ true
port_then_end-plain [] h = refl
port_then_end-plain (c ∷ []) h = at_end-plain (c ∷ []) h
port_then_end-plain (c ∷ d ∷ s) h =
    ground (arith, colon-plain c, digit-plain d, digits_then_end-plain s, is_plain-cons d s)

host_then_end-plain : (s : JsString) → host_then_end s ≡ true → is_plain s ≡ true
unfolding host_then_end
host_then_end-plain [] h = refl
host_then_end-plain (c ∷ s) h = elim (Bool-cases (c == b':' || separates c)) [
  | inl d ↦ port_then_end-plain (c ∷ s) (rw d at h)
  | inr d ↦ is_plain-cons c s (ground arith) (host_then_end-plain s (rw d at h))
]

bracket-plain : (c : ℕ) → (c == b']') ≡ true → separates c ≡ false
unfolding is_space
bracket-plain c h = ground arith

bracket_then_end-plain : (s : JsString) → bracket_then_end s ≡ true → is_plain s ≡ true
unfolding bracket_then_end
bracket_then_end-plain [] h = absurd (cc)
bracket_then_end-plain (c ∷ s) h = elim (Bool-cases (c == b']')) [
  | inl d ↦ is_plain-cons c s (bracket-plain c d) (port_then_end-plain s (rw d at h))
  | inr d ↦ is_plain-cons c s (ground arith) (bracket_then_end-plain s (ground arith))
]

opening-plain : (c : ℕ) → (c == b'[') ≡ true → separates c ≡ false
unfolding is_space
opening-plain c h = ground arith

is_host-plain :
    (s : JsString)
    → is_host s ≡ true
    → (first : ℕ) × (rest : JsString) × (s ≡ first ∷ rest)
      × (separates first ≡ false)
      × (is_plain (first ∷ rest) ≡ true)
is_host-plain [] h = absurd (cc)
is_host-plain (c ∷ []) h = (c, [], refl, ground arith, ground arith)
is_host-plain (c ∷ d ∷ s) h =
    let first : separates c ≡ false = ground (arith, opening-plain c) in
    let rest : is_plain (d ∷ s) ≡ true =
      ground (arith, bracket_then_end-plain s, is_plain-cons d s, host_then_end-plain (d ∷ s)) in
    (c, d ∷ s, refl, first, is_plain-cons c (d ∷ s) first rest)

fold_case-letter :
    (l c : ℕ) → letter l c ≡ true → between b'A' b'Z' l ≡ false → l ≢ 0x17f → fold_case c ≡ l
fold_case-letter l c h small short = ground arith

-- A literal text of small letters and signs.
abbrev is_small : JsString → Bool
is_small [] = true
is_small (l ∷ ls) = not (between b'A' b'Z' l || l == 0x17f) && is_small ls

after_literal_sound :
    (ls s rest : JsString)
    → is_small ls ≡ true
    → after_literal ls s ≡ some rest
    → (scheme : JsString) × (s ≡ scheme ++ rest) × (map fold_case scheme ≡ ls)
unfolding after_literal
after_literal_sound [] s rest k h = ([], ground arith, refl)
after_literal_sound (l ∷ ls) [] rest k h = absurd (cc)
after_literal_sound (l ∷ ls) (c ∷ s) rest k h = elim (Bool-cases (letter l c)) [
  | inr e ↦ absurd (ground arith)
  | inl e ↦
      let (scheme, whole, folded) = after_literal_sound ls s rest (ground arith) (rw e at h) in
      (c ∷ scheme, ap (λ t. c ∷ t) whole, ground (arith, fold_case-letter l c e))
]

pub is_public_https_origin_sound :
    (text : JsString) → is_public_https_origin text ≡ true → IsHttpsText text
unfolding is_public_https_origin after_https
is_public_https_origin_sound text h = elim (Option-cases (after_https text)) [
  | inl e ↦ absurd (ground arith)
  | inr (rest, e) ↦
      let (scheme, whole, folded) = after_literal_sound (js "https://") text rest refl e in
      let (first, more, split, start, plain) = is_host-plain rest (rw e at h) in
      (scheme, first, more, whole ∙ ap (λ r. scheme ++ r) split, folded, start, plain)
]
