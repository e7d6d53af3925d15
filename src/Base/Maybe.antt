-- ===== src/Base/Maybe.antt =====
-- Chains of tests that end in `null`.
use mathlib.Core.Path.{◌≡◌, refl}
use mathlib.Core.Bool.{Bool, true, false}
use mathlib.Core.Option.{Option, none, some}

module _ {A B : Type 0} where
  -- What comes next is skipped once a test has failed.
  infixl 5 ◌>>=◌
  abbrev pub ◌>>=◌ : Option A → (A → Option B) → Option B
  none >>= next = none
  some a >>= next = next a

  pub >>=-eq-some :
      (o : Option A) (next : A → Option B) {b : B}
      → (o >>= next) ≡ some b
      → (a : A) × (o ≡ some a) × (next a ≡ some b)
  >>=-eq-some (some a) next h = (a, refl, h)
  >>=-eq-some none next h = cc

infixl 5 ◌>>◌
abbrev pub ◌>>◌ : {A : Type 0} → Option (Unit {0}) → Option A → Option A
test >> rest = test >>= (λ passed. rest)

-- The rest is reached if the test passes.
abbrev pub guard : Bool → Option (Unit {0})
guard true = some tt
guard false = none

pub guard-eq-some :
    {B : Type 0} (t : Bool) (m : Option B) {b : B}
    → (guard t >> m) ≡ some b
    → (t ≡ true) × (m ≡ some b)
guard-eq-some true m h = (refl, h)
guard-eq-some false m h = cc
