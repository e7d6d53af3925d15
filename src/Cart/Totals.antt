-- ===== src/Cart/Totals.antt =====
-- The sum that the cart badge shows, and the provider's operations against a cart that has moved on.
use restaurant_ordering_anal.Base.{
  ℕ, ◌+◌, ◌*◌, ◌≤◌, ◌≡◌, refl, true, List, [], ◌∷◌, ◌++◌, Option, none, some, JsString, length, All,
  arith, Bool-cases, Option-cases, inl, inr, str_eq, str_eq_sound,
}
use restaurant_ordering_anal.Js.{Number, nat, add_one}
use restaurant_ordering_anal.Cart.Reducer.{
  CartItem, CartState, add, set_quantity, increment, find, get_add_result, is_fine, update,
  reduce_add, cart_reducer,
}
use restaurant_ordering_anal.Cart.Items.{Distinct, update_absent}
use restaurant_ordering_anal.Cart.Invariant.{InRange, IsValid, cart_reducer-IsValid}
use restaurant_ordering_anal.Cart.Context.{
  add_item, change_quantity, increment_item, total_quantity, unique_item_count, natural, plus,
}

total_bounds :
    (items : List CartItem)
    → All (λ item. InRange item.quantity) items
    → (t : ℕ) × (total_quantity items ≡ some t) × (length items ≤ t) × (t ≤ 99 * length items)
unfolding total_quantity
total_bounds [] a = (0, refl, omega arith, omega arith)
total_bounds (i ∷ items) ((n, q, lo, hi), a) =
    let (t, e, l, u) = total_bounds items a in (n + t, ground arith, omega arith, omega arith)

-- In a valid cart the total is a natural number from the count of different items up to 4950.
pub total_quantity_bounds :
    (state : CartState)
    → IsValid state
    → (t : ℕ) × (total_quantity state.items ≡ some t) × (unique_item_count state ≤ t) × (t ≤ 4950)
total_quantity_bounds state v =
    let (t, e, l, u) = total_bounds state.items v.quantities in (t, e, l, omega (arith, v.bounded))

plus-some :
    (a b : Option ℕ) (t : ℕ)
    → plus a b ≡ some t
    → (m : ℕ) × (u : ℕ) × (a ≡ some m) × (b ≡ some u) × (m + u ≡ t)
plus-some (some m) (some u) t e = (m, u, refl, refl, ground arith)
plus-some none b t e = absurd (cc)
plus-some (some m) none t e = absurd (cc)

total-append :
    (xs : List CartItem) (y : CartItem) (t : ℕ)
    → total_quantity xs ≡ some t
    → y.quantity ≡ nat 1
    → total_quantity (xs ++ (y ∷ [])) ≡ some (t + 1)
unfolding total_quantity
total-append [] y t e q = ground arith
total-append (x ∷ xs) y t e q =
    let (m, u, n, rest, sum) = plus-some (natural x.quantity) (total_quantity xs) t e in
    rw (n, total-append xs y u rest q) (ground arith)

natural-add_one : (x : Number) (m : ℕ) → natural x ≡ some m → natural (add_one x) ≡ some (m + 1)
unfolding add_one
natural-add_one (nat n) m e = ground arith
natural-add_one x m e = absurd (cc)

total-update :
    (id : JsString) (items : List CartItem) (item : CartItem) (t : ℕ)
    → Distinct items
    → find id items ≡ some item
    → total_quantity items ≡ some t
    → total_quantity (update id add_one items) ≡ some (t + 1)
unfolding total_quantity find update
total-update id [] item t d h e = absurd (cc)
total-update id (i ∷ items) item t d h e =
    let (m, u, n, rest, sum) = plus-some (natural i.quantity) (total_quantity items) t e in
    elim (Bool-cases (str_eq i.menu_item_id id)) [
      | inl s ↦
          let same : i.menu_item_id ≡ id = str_eq_sound _ _ s in
          let gone : find id items ≡ none = rw (← same) d.0 in
          rw (s, update_absent id add_one items gone, natural-add_one i.quantity m n, rest)
            (ground arith)
      | inr s ↦ rw (s, n, total-update id items item u d.1 (ground arith) rest) (ground arith)
    ]

-- An addition that `getAddResult` allows raises the total by exactly one.
pub total_quantity-add :
    (state : CartState) (id : JsString) (t : ℕ)
    → IsValid state
    → is_fine (get_add_result state id) ≡ true
    → total_quantity state.items ≡ some t
    → total_quantity (cart_reducer state (add id)).items ≡ some (t + 1)
unfolding cart_reducer reduce_add
total_quantity-add state id t v ok e = elim (Option-cases (find id state.items)) [
  | inl g ↦ rw (ok, g) (total-append state.items _ t e refl)
  | inr (item, g) ↦ rw (ok, g) (total-update id state.items item t v.distinct g e)
]

-- Whatever cart a callback was rendered with, the current cart stays valid.
pub callbacks-IsValid :
    (rendered current : CartState) (id : JsString) (q : Number)
    → IsValid current
    → IsValid (add_item rendered current id).0
      × IsValid (change_quantity rendered current id q).0
      × IsValid (increment_item rendered current id).0
unfolding add_item change_quantity increment_item
callbacks-IsValid rendered current id q v =
    let a = cart_reducer-IsValid current (add id) v in
    let s = cart_reducer-IsValid current (set_quantity id q) v in
    let i = cart_reducer-IsValid current (increment id) v in
    (ground arith, ground arith, ground arith)
