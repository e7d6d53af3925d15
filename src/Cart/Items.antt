-- ===== src/Cart/Items.antt =====
-- Searching, updating and filtering the list of cart items, in general.
use mathlib.Core.Path.{subst}
use restaurant_ordering_anal.Base.{
  suc, ◌≤◌, ◌≡◌, refl, ap, List, [], ◌∷◌, ◌++◌, Option, none, some, JsString, str_eq, str_eq_refl,
  str_eq_sound, if◌then◌else◌, length, All, arith, Bool-cases, inl, inr,
}
use restaurant_ordering_anal.Js.{Number}
use restaurant_ordering_anal.Cart.Reducer.{CartItem, find, update, without}

-- No identifier stands twice.
abbrev pub Distinct : List CartItem → Type 0
Distinct [] = Unit {0}
Distinct (item ∷ items) = (find item.menu_item_id items ≡ none) × Distinct items

pub find-id :
    (id : JsString) (items : List CartItem) (item : CartItem)
    → find id items ≡ some item
    → item.menu_item_id ≡ id
unfolding find
find-id id [] item h = ground arith
find-id id (i ∷ items) item h =
    ground (arith, str_eq_sound i.menu_item_id id, find-id id items item)

pub find-append :
    (id : JsString) (xs ys : List CartItem) → find id xs ≡ none → find id (xs ++ ys) ≡ find id ys
unfolding find
find-append id [] ys h = refl
find-append id (x ∷ xs) ys h = ground (arith, find-append id xs ys)

pub find-append_found :
    (id : JsString) (xs ys : List CartItem) (item : CartItem)
    → find id xs ≡ some item
    → find id (xs ++ ys) ≡ some item
unfolding find
find-append_found id [] ys item h = ground arith
find-append_found id (x ∷ xs) ys item h = ground (arith, find-append_found id xs ys item)

pub find_all {κ} :
    (P : CartItem → Type κ) (id : JsString) (items : List CartItem) (item : CartItem)
    → find id items ≡ some item
    → All P items
    → P item
unfolding find
find_all P id [] item h a = absurd (cc)
find_all P id (i ∷ items) item h a = elim (Bool-cases (str_eq i.menu_item_id id)) [
  | inl e ↦ let same : i ≡ item = ground arith in subst P same a.0
  | inr e ↦ find_all P id items item (ground arith) a.1
]

pub update_absent :
    (id : JsString) (f : Number → Number) (items : List CartItem)
    → find id items ≡ none
    → update id f items ≡ items
unfolding find update
update_absent id f [] h = refl
update_absent id f (i ∷ items) h = ground (arith, update_absent id f items)

pub length-update :
    (id : JsString) (f : Number → Number) (items : List CartItem)
    → length (update id f items) ≡ length items
unfolding update
length-update id f [] = refl
length-update id f (i ∷ items) = ap suc (length-update id f items)

abbrev pub raise : (Number → Number) → Option CartItem → Option CartItem
raise f none = none
raise f (some item) = some (record item { quantity = f item.quantity })

pub find-update :
    (id j : JsString) (f : Number → Number) (items : List CartItem)
    → find j (update id f items) ≡ (if str_eq id j then raise f (find j items) else find j items)
unfolding find update
find-update id j f [] = ground arith
find-update id j f (i ∷ items) = ground (
  arith,
  str_eq_sound i.menu_item_id id,
  str_eq_sound i.menu_item_id j,
  str_eq_sound id j,
  str_eq_refl j,
  find-update id j f items,
)

pub find-without :
    (id j : JsString) (items : List CartItem)
    → find j (without id items) ≡ (if str_eq id j then none else find j items)
unfolding find without
find-without id j [] = ground arith
find-without id j (i ∷ items) = ground (
  arith,
  str_eq_sound i.menu_item_id id,
  str_eq_sound i.menu_item_id j,
  str_eq_sound id j,
  str_eq_refl j,
  find-without id j items,
)

pub update-Distinct :
    (id : JsString) (f : Number → Number) (items : List CartItem)
    → Distinct items
    → Distinct (update id f items)
unfolding update
update-Distinct id f [] d = tt
update-Distinct id f (i ∷ items) d =
    ground (arith, update-Distinct id f items, find-update id i.menu_item_id f items)

pub without-Distinct :
    (id : JsString) (items : List CartItem) → Distinct items → Distinct (without id items)
unfolding without
without-Distinct id [] d = tt
without-Distinct id (i ∷ items) d =
    ground (arith, without-Distinct id items, find-without id i.menu_item_id items)

pub length-without-le :
    (id : JsString) (items : List CartItem) → length (without id items) ≤ length items
unfolding without
length-without-le id [] = omega arith
length-without-le id (i ∷ items) = ground (arith, length-without-le id items)

pub append-Distinct :
    (items : List CartItem) (item : CartItem)
    → Distinct items
    → find item.menu_item_id items ≡ none
    → Distinct (items ++ (item ∷ []))
unfolding find
append-Distinct [] item d h = (refl, tt)
append-Distinct (i ∷ items) item d h = ground (
  arith,
  append-Distinct items item,
  find-append i.menu_item_id items (item ∷ []),
  str_eq_sound item.menu_item_id i.menu_item_id,
  str_eq_refl i.menu_item_id,
)

module _ {κ} (P : CartItem → Type κ) where
  -- Only the one entry of the identifier changes.
  pub update-All :
      (id : JsString) (f : Number → Number) (items : List CartItem)
      → Distinct items
      → All P items
      → ((item : CartItem)
          → find id items ≡ some item
          → P (record item { quantity = f item.quantity }))
      → All P (update id f items)
  unfolding update find
  update-All id f [] d a h = tt
  update-All id f (i ∷ items) d a h = elim (Bool-cases (str_eq i.menu_item_id id)) [
    | inl e ↦
        let same : i.menu_item_id ≡ id = str_eq_sound _ _ e in
        rw (e, update_absent id f items (rw (← same) d.0)) (h i (rw e), a.1)
    | inr e ↦ rw e (a.0, update-All id f items d.1 a.1 (λ item g. h item (rw e g)))
  ]

  pub without-All : (id : JsString) (items : List CartItem) → All P items → All P (without id items)
  unfolding without
  without-All id [] a = tt
  without-All id (i ∷ items) a = elim (Bool-cases (str_eq i.menu_item_id id)) [
    | inl e ↦ rw e (without-All id items a.1)
    | inr e ↦ rw e (a.0, without-All id items a.1)
  ]
