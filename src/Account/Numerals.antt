-- ===== src/Account/Numerals.antt =====
-- A natural number that is written into a path is read back from it.
use restaurant_ordering_anal.Base.{
  ℕ, suc, zero, ◌+◌, ◌*◌, ◌-◌, ◌/◌, ◌%◌, ◌<◌, ◌≡◌, Bool, true, false, [], ◌∷◌, ◌++◌, JsString, all,
  arith, refl, Bool-cases, inl, inr, ltb,
}
use restaurant_ordering_anal.Js.Pattern.{digit, is_empty}
use restaurant_ordering_anal.Api.Config.{decimal, decimal_from}
use restaurant_ordering_anal.Api.Authenticated.{is_numeral}
use restaurant_ordering_anal.Account.Pages.{digits_from, numeral}

pub decimal_from-append :
    (acc : ℕ) (s : JsString) (c : ℕ)
    → decimal_from acc (s ++ (c ∷ [])) ≡ decimal_from acc s * 10 + (c - b'0')
unfolding decimal_from
decimal_from-append acc [] c = refl
decimal_from-append acc (d ∷ s) c = decimal_from-append (acc * 10 + (d - b'0')) s c

pub all-append :
    (test : ℕ → Bool) (s t : JsString)
    → all test s ≡ true
    → all test t ≡ true
    → all test (s ++ t) ≡ true
all-append test [] t h k = k
all-append test (c ∷ s) t h k = ground (arith, all-append test s t)

-- With as much fuel as the number is large, all its digits are written.
decimal-digits_from : (fuel n : ℕ) → n < fuel → decimal_from 0 (digits_from fuel n) ≡ n
unfolding digits_from decimal_from
decimal-digits_from zero n h = absurd (omega arith)
decimal-digits_from (suc fuel) n h = elim (Bool-cases (ltb n 10)) [
  | inl e ↦ rw e (omega arith)
  | inr e ↦ rw e (
      omega (
        arith,
        decimal_from-append 0 (digits_from fuel (n / 10)) (b'0' + n % 10),
        decimal-digits_from fuel (n / 10) (ground arith),
      ))
]

digits_from-digits : (fuel n : ℕ) → all digit (digits_from fuel n) ≡ true
unfolding digits_from digit
digits_from-digits zero n = refl
digits_from-digits (suc fuel) n = elim (Bool-cases (ltb n 10)) [
  | inl e ↦ rw e (ground arith)
  | inr e ↦ rw e (
      all-append digit (digits_from fuel (n / 10)) _ (digits_from-digits fuel (n / 10))
        (ground arith))
]

pub numeral-digits : (n : ℕ) → all digit (numeral n) ≡ true
unfolding numeral
numeral-digits n = digits_from-digits (suc n) n

nonempty-append : (s : JsString) (c : ℕ) → is_empty (s ++ (c ∷ [])) ≡ false
nonempty-append [] c = refl
nonempty-append (d ∷ s) c = refl

pub numeral-is_numeral : (n : ℕ) → is_numeral (numeral n) ≡ true
unfolding numeral digits_from
numeral-is_numeral n = elim (Bool-cases (ltb n 10)) [
  | inl e ↦ ground (arith, digits_from-digits (suc n) n)
  | inr e ↦ ground (
    arith,
    digits_from-digits (suc n) n,
    nonempty-append (digits_from n (n / 10)) (b'0' + n % 10),
  )
]

-- A numeral stands for its number.
pub decimal-numeral : (n : ℕ) → decimal (numeral n) ≡ n
unfolding decimal numeral
decimal-numeral n = decimal-digits_from (suc n) n (omega arith)
