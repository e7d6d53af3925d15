-- ===== src/Js/Keys.antt =====
-- `hasExactKeys`, which compares the sorted keys, and what it decides. The source repeats the function
-- word for word in each module that parses.
use mathlib.Core.Logic.{∥∥₁_elim}
use mathlib.Core.List.{Perm, Permᴰ}
use mathlib.Core.List.Perm
use restaurant_ordering_anal.Base.{
  ◌≡◌, refl, sym, ◌∙◌, ap₂, subst, Bool, true, false, ◌&&◌, ◌↔◌, List, [], ◌∷◌, arith, ltb, ◌==◌,
  JsString, str_eq, str_eq_sound, str_eq_refl, if◌then◌else◌, length, Bool-cases, and-eq-true,
  ==_iff, inl, inr,
}
use restaurant_ordering_anal.Js.{Fields, keys}

-- The order of `sort()`: by code units.
str_le : JsString → JsString → Bool
str_le [] t = true
str_le (a ∷ s) [] = false
str_le (a ∷ s) (b ∷ t) = if a == b then str_le s t else ltb a b

insert : JsString → List JsString → List JsString
insert k [] = k ∷ []
insert k (j ∷ ks) = if str_le k j then k ∷ j ∷ ks else j ∷ insert k ks

pub sort : List JsString → List JsString
unfolding insert str_le
sort [] = []
sort (k ∷ ks) = insert k (sort ks)

-- `actual.every((key, index) => key === expected[index])`.
same_at : List JsString → List JsString → Bool
same_at [] js = true
same_at (k ∷ ks) [] = false
same_at (k ∷ ks) (j ∷ js) = str_eq k j && same_at ks js

-- `hasExactKeys(value, expected)`.
unfoldable pub has_exact_keys : Fields → List JsString → Bool
unfolding sort same_at
has_exact_keys fs expected =
    (length (sort (keys fs)) == length (sort expected)) && same_at (sort (keys fs)) (sort expected)

str_le_total : (s t : JsString) → str_le s t ≡ false → str_le t s ≡ true
unfolding str_le
str_le_total [] t h = ground arith
str_le_total (a ∷ s) [] h = refl
str_le_total (a ∷ s) (b ∷ t) h = ground (arith, str_le_total s t)

str_le_antisym : (s t : JsString) → str_le s t ≡ true → str_le t s ≡ true → s ≡ t
unfolding str_le
str_le_antisym [] [] h k = refl
str_le_antisym [] (b ∷ t) h k = ground arith
str_le_antisym (a ∷ s) [] h k = ground arith
str_le_antisym (a ∷ s) (b ∷ t) h k = ground (arith, str_le_antisym s t)

str_le_trans : (s t u : JsString) → str_le s t ≡ true → str_le t u ≡ true → str_le s u ≡ true
unfolding str_le
str_le_trans [] t u h k = refl
str_le_trans (a ∷ s) [] u h k = ground arith
str_le_trans (a ∷ s) (b ∷ t) [] h k = ground arith
str_le_trans (a ∷ s) (b ∷ t) (c ∷ u) h k = ground (arith, str_le_trans s t u)

insert-perm : (k : JsString) (ks : List JsString) → Perm (insert k ks) (k ∷ ks)
unfolding insert
insert-perm k [] = Perm.refl _
insert-perm k (j ∷ ks) = elim (Bool-cases (str_le k j)) [
  | inl h ↦ rw h (Perm.refl _)
  | inr h ↦ rw h (Perm.trans (Perm.cons j (insert-perm k ks)) (Perm.swap k j ks))
]

sort-perm : (ks : List JsString) → Perm (sort ks) ks
unfolding sort
sort-perm [] = Perm.refl _
sort-perm (k ∷ ks) = Perm.trans (insert-perm k (sort ks)) (Perm.cons k (sort-perm ks))

insert-insert :
    (a b : JsString) (ks : List JsString) → insert a (insert b ks) ≡ insert b (insert a ks)
unfolding insert
insert-insert a b [] = ground (arith, str_le_total a b, str_le_antisym a b)
insert-insert a b (k ∷ ks) = ground (
  arith,
  insert-insert a b ks,
  str_le_total a b,
  str_le_antisym a b,
  str_le_trans a b k,
  str_le_trans b a k,
  str_le_total a k,
  str_le_total b k,
)

keys-set : IsSet (List JsString)
keys-set = hlevel

sort-eq_of_permᴰ : {ks js : List JsString} → Permᴰ ks js → sort ks ≡ sort js
unfolding sort
sort-eq_of_permᴰ Permᴰ.nil = refl
sort-eq_of_permᴰ (Permᴰ.cons e p) = ap₂ insert e (sort-eq_of_permᴰ p)
sort-eq_of_permᴰ (Permᴰ.swap {a} {b} {l} e f) = cc (insert-insert a b (sort l))
sort-eq_of_permᴰ (Permᴰ.trans p q) = sort-eq_of_permᴰ p ∙ sort-eq_of_permᴰ q

same_at-eq : (ks js : List JsString) → length ks ≡ length js → same_at ks js ≡ true → ks ≡ js
unfolding same_at
same_at-eq [] [] l h = refl
same_at-eq [] (j ∷ js) l h = absurd (omega arith)
same_at-eq (k ∷ ks) [] l h = absurd (omega arith)
same_at-eq (k ∷ ks) (j ∷ js) l h = ground (arith, str_eq_sound k j, same_at-eq ks js)

same_at_refl : (ks : List JsString) → same_at ks ks ≡ true
unfolding same_at
same_at_refl [] = refl
same_at_refl (k ∷ ks) = ground (arith, str_eq_refl k, same_at_refl ks)

sort-eq_of_perm : {ks js : List JsString} → Perm ks js → sort ks ≡ sort js
sort-eq_of_perm p = ∥∥₁_elim p (keys-set _ _) sort-eq_of_permᴰ

-- An object has exactly the expected keys if and only if its keys are a permutation of them.
pub has_exact_keys-iff-perm :
    (fs : Fields) (expected : List JsString)
    → (has_exact_keys fs expected ≡ true) ↔ Perm (keys fs) expected
unfolding has_exact_keys
has_exact_keys-iff-perm fs expected = (to, from)
  where
    to : has_exact_keys fs expected ≡ true → Perm (keys fs) expected
    to h =
        let (l, s) = and-eq-true _ _ h in
        let e : sort (keys fs) ≡ sort expected = same_at-eq _ _ ((==_iff _ _).0 l) s in
        Perm.trans (Perm.symm (sort-perm (keys fs)))
          (subst (λ l. Perm l expected) (sym e) (sort-perm expected))

    from : Perm (keys fs) expected → has_exact_keys fs expected ≡ true
    from p = let e = sort-eq_of_perm p in rw e (ground (arith, same_at_refl (sort expected)))
