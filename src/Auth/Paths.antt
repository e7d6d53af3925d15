-- ===== src/Auth/Paths.antt =====
-- The shape of the paths that the tests let through.
use restaurant_ordering_anal.Base.{
  ℕ, ◌≡◌, refl, Bool, true, ◌||◌, List, [], ◌∷◌, ◌++◌, JsString, js, one_of, str_eq, ◌==◌, All,
  All-replicate, arith, Bool-cases, inl, inr, str_eq_sound, all,
}
use restaurant_ordering_anal.Js.Pattern.{
  matches, split_on, push, order_number_pattern, order_character, between, Class, only,
}
use restaurant_ordering_anal.Auth.Navigation.{
  split_slash, are_order_parts, are_detail_parts, order_suffixes,
}

-- `parts.join('/')`.
abbrev pub join_slash : List JsString → JsString
join_slash [] = []
join_slash (p ∷ []) = p
join_slash (p ∷ q ∷ ps) = p ++ (b'/' ∷ join_slash (q ∷ ps))

join-push : (c : ℕ) (parts : List JsString) → join_slash (push c parts) ≡ c ∷ join_slash parts
join-push c [] = refl
join-push c (p ∷ []) = refl
join-push c (p ∷ q ∷ ps) = refl

abbrev NonEmpty : List JsString → Type 0
NonEmpty [] = ⊥
NonEmpty (p ∷ ps) = Unit {0}

split-NonEmpty : (s : JsString) → NonEmpty (split_slash s)
unfolding split_on
split-NonEmpty [] = tt
split-NonEmpty (c ∷ s) = elim (Bool-cases (c == b'/')) [
  | inl e ↦ rw e tt
  | inr e ↦ rw e (pushed (split_slash s))
]
  where
    pushed : (ps : List JsString) → NonEmpty (push c ps)
    pushed [] = tt
    pushed (p ∷ ps) = tt

join-nil : (ps : List JsString) → NonEmpty ps → join_slash ([] ∷ ps) ≡ b'/' ∷ join_slash ps
join-nil [] h = absurd h
join-nil (p ∷ ps) h = refl

pub join-split : (s : JsString) → join_slash (split_slash s) ≡ s
unfolding split_on
join-split [] = refl
join-split (c ∷ s) = elim (Bool-cases (c == b'/')) [
  | inl e ↦ rw (e, join-nil (split_slash s) (split-NonEmpty s), join-split s) (ground arith)
  | inr e ↦ rw (e, join-push c (split_slash s), join-split s)
]

-- The characters of the application's own paths.
unfoldable pub is_path_character : ℕ → Bool
is_path_character c =
    between b'a' b'z' c || between b'A' b'Z' c || between b'0' b'9' c || c == b'/' || c == b'-'

pub all-append :
    (P : Class) (s t : JsString) → all P s ≡ true → all P t ≡ true → all P (s ++ t) ≡ true
all-append P [] t h k = k
all-append P (c ∷ s) t h k = ground (arith, all-append P s t)

pub matches-all :
    (P : Class) (ps : List Class) (s : JsString)
    → All (λ p. (c : ℕ) → p c ≡ true → P c ≡ true) ps
    → matches ps s ≡ true
    → all P s ≡ true
unfolding matches
matches-all P [] [] a h = refl
matches-all P [] (c ∷ s) a h = absurd (ground arith)
matches-all P (p ∷ ps) [] a h = absurd (ground arith)
matches-all P (p ∷ ps) (c ∷ s) a h = ground (arith, a.0 c, matches-all P ps s a.1)

pub one_of-all :
    (P : Class) (ts : List JsString) (s : JsString)
    → all (all P) ts ≡ true
    → one_of ts s ≡ true
    → all P s ≡ true
one_of-all P [] s a h = absurd (cc)
one_of-all P (t ∷ ts) s a h = elim (Bool-cases (str_eq s t)) [
  | inl e ↦ rw (str_eq_sound s t e) (ground arith)
  | inr e ↦ one_of-all P ts s (ground arith) (ground arith)
]

only-path :
    (k : ℕ) → is_path_character k ≡ true → (c : ℕ) → only k c ≡ true → is_path_character c ≡ true
unfolding is_path_character
only-path k h c e = ground arith

order-path : (c : ℕ) → order_character c ≡ true → is_path_character c ≡ true
unfolding order_character is_path_character
order-path c h = ground arith

abbrev IsPathClass : Class → Type 0
IsPathClass p = (c : ℕ) → p c ≡ true → is_path_character c ≡ true

order_number-classes : All IsPathClass order_number_pattern
unfolding order_number_pattern is_path_character
order_number-classes = (
  only-path b'R' refl,
  (
    only-path b'O' refl,
    (
      only-path b'A' refl,
      (only-path b'-' refl, All-replicate IsPathClass 12 order_character order-path),
    ),
  ),
)

pub order_number-all :
    (s : JsString) → matches order_number_pattern s ≡ true → all is_path_character s ≡ true
order_number-all s = matches-all is_path_character order_number_pattern s order_number-classes

-- The paths of an order or of an order's detail page, spelled out.
abbrev pub order_path : JsString → JsString → JsString
order_path number suffix = js "/orders/" ++ (number ++ (b'/' ∷ suffix))

abbrev pub detail_path : JsString → JsString → JsString
detail_path area number = b'/' ∷ area ++ (js "/orders/" ++ number)

pub are_order_parts-join :
    (parts : List JsString)
    → are_order_parts parts ≡ true
    → (number : JsString) × (suffix : JsString) × (join_slash parts ≡ order_path number suffix)
      × (matches order_number_pattern number ≡ true)
      × (one_of order_suffixes suffix ≡ true)
are_order_parts-join (a ∷ b ∷ c ∷ d ∷ []) h = (
  c,
  d,
  rw (str_eq_sound a [] (ground arith), str_eq_sound b (js "orders") (ground arith)),
  ground arith,
  ground arith,
)
are_order_parts-join _ h = absurd (cc)

pub are_detail_parts-join :
    (area : JsString) (parts : List JsString)
    → are_detail_parts area parts ≡ true
    → (number : JsString) × (join_slash parts ≡ detail_path area number)
      × (matches order_number_pattern number ≡ true)
are_detail_parts-join area (a ∷ b ∷ c ∷ d ∷ []) h = (
  d,
  rw (
    str_eq_sound a [] (ground arith),
    str_eq_sound b area (ground arith),
    str_eq_sound c (js "orders") (ground arith),
  ),
  ground arith,
)
are_detail_parts-join area _ h = absurd (cc)
