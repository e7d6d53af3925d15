-- ===== src/Base/Throwing.antt =====
-- The result of code that may throw.
use mathlib.Core.Path.{◌≡◌, refl}
use mathlib.Core.Logic.{◌⊎◌, inl, inr}

pub data Outcome {ℓ} (E : Type ℓ) (A : Type ℓ) : Type ℓ where
  throw : E → Outcome E A
  ok : A → Outcome E A

module _ {E A : Type 0} where
  pub Outcome-cases : (o : Outcome E A) → ((e : E) × (o ≡ throw e)) ⊎ ((a : A) × (o ≡ ok a))
  Outcome-cases (throw e) = inl (e, refl)
  Outcome-cases (ok a) = inr (a, refl)

  -- What comes next is skipped once something was thrown.
  infixl 5 ◌>>=◌
  abbrev pub ◌>>=◌ : {B : Type 0} → Outcome E A → (A → Outcome E B) → Outcome E B
  throw e >>= next = throw e
  ok a >>= next = next a

  pub >>=-eq-ok :
      {B : Type 0} (o : Outcome E A) (next : A → Outcome E B) {b : B}
      → (o >>= next) ≡ ok b
      → (a : A) × (o ≡ ok a) × (next a ≡ ok b)
  >>=-eq-ok (ok a) next h = (a, refl, h)
  >>=-eq-ok (throw e) next h = cc

infixl 5 ◌>>◌
abbrev pub ◌>>◌ : {E A : Type 0} → Outcome E (Unit {0}) → Outcome E A → Outcome E A
test >> rest = test >>= (λ passed. rest)
