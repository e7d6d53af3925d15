-- ===== src/Base/Text.antt =====
-- Strings as lists of code units, and their equality.
use Prim.Native.Nat.{ℕ}
use Prim.Native.Char.{code}
use Prim.Native.String.{String}
use mathlib.Core.Path.{◌≡◌, refl}
use mathlib.Core.Logic.{◌≢◌}
use mathlib.Core.Bool.{Bool, true, false, ◌&&◌, ◌||◌}
use mathlib.Core.List.{List, [], ◌∷◌, ◌++◌}
use native.Mathlib.Omega.{arith}
use restaurant_ordering_anal.Base.Tests.{◌==◌}

-- A JavaScript string is its sequence of UTF-16 code units.
abbrev pub JsString : Type 0
JsString = List ℕ

-- A literal: code points below 2 ^ 16 are code units, and the program's literals are ASCII.
abbrev pub js : String → JsString
js String.[] = []
js (String.◌∷◌ c s) = code c ∷ js s

unfoldable pub str_eq : JsString → JsString → Bool
str_eq [] [] = true
str_eq (a ∷ s) (b ∷ t) = (a == b) && str_eq s t
str_eq _ _ = false

pub str_eq_sound : (s t : JsString) → str_eq s t ≡ true → s ≡ t
unfolding str_eq
str_eq_sound [] [] h = refl
str_eq_sound [] (b ∷ t) h = ground arith
str_eq_sound (a ∷ s) [] h = ground arith
str_eq_sound (a ∷ s) (b ∷ t) h = ground (arith, str_eq_sound s t)

pub str_eq_refl : (s : JsString) → str_eq s s ≡ true
unfolding str_eq
str_eq_refl [] = refl
str_eq_refl (a ∷ s) = ground (arith, str_eq_refl s)

pub str_eq_complete : (s t : JsString) → s ≡ t → str_eq s t ≡ true
str_eq_complete s t e = rw e (str_eq_refl t)

pub str_ne : (s t : JsString) → str_eq s t ≡ false → s ≢ t
str_ne s t h e = ground (arith, str_eq_complete s t e)

pub str_eq_sym : (s t : JsString) → str_eq s t ≡ str_eq t s
unfolding str_eq
str_eq_sym [] [] = refl
str_eq_sym [] (b ∷ t) = refl
str_eq_sym (a ∷ s) [] = refl
str_eq_sym (a ∷ s) (b ∷ t) = ground (arith, str_eq_sym s t)

-- `set.has(s)` for a set written as the list of its members.
abbrev pub one_of : List JsString → JsString → Bool
one_of [] s = false
one_of (t ∷ ts) s = str_eq s t || one_of ts s

-- A common prefix takes no part in a comparison.
pub str_eq-append : (p s t : JsString) → str_eq (p ++ s) (p ++ t) ≡ str_eq s t
unfolding str_eq
str_eq-append [] s t = refl
str_eq-append (c ∷ p) s t = ground (arith, str_eq-append p s t)
