-- ===== src/Cart/Quantities.antt =====
-- The cart as its customers see it: the quantity of each menu item, before and after each operation.
use restaurant_ordering_anal.Base.{
  ℕ, suc, ◌+◌, ◌≤◌, ◌<◌, ◌≡◌, refl, ap, ◌≡⟨◌⟩◌, ◌∎, Bool, true, false, ◌&&◌, List, [], ◌∷◌, Option,
  none, some, JsString, if◌then◌else◌, leb, arith, Bool-cases, Option-cases, inl, inr, str_eq,
  str_eq_refl, str_eq_sound,
}
use restaurant_ordering_anal.Js.{
  Number, nat, is_integer, num_lt, num_gt, num_ge, num_le, add_one, sub_one,
}
use restaurant_ordering_anal.Cart.Reducer.{
  CartItem, CartState, add, set_quantity, increment, decrement, remove, cart_max_quantity, find,
  find_item, get_add_result, get_set_quantity_result, is_fine, update, reduce_add,
  reduce_set_quantity, cart_reducer,
}
use restaurant_ordering_anal.Cart.Items.{
  Distinct, find_all, find-update, find-without, find-append, find-append_found, update_absent,
}
use restaurant_ordering_anal.Cart.Invariant.{InRange, IsValid}
use restaurant_ordering_anal.Cart.Context.{get_quantity}

abbrev pub is_found : Option CartItem → Bool
is_found none = false
is_found (some item) = true

-- Adding an item raises its quantity by one if `getAddResult` allows it, and changes no other.
pub quantity-add :
    (state : CartState) (id j : JsString)
    → get_quantity (cart_reducer state (add id)) j ≡ (
        if is_fine (get_add_result state id) && str_eq id j
        then add_one (get_quantity state j)
        else get_quantity state j)
unfolding cart_reducer reduce_add get_quantity find add_one
quantity-add state id j = elim (Option-cases (find id state.items)) [
  | inl e ↦ elim (Option-cases (find j state.items)) [
    | inl g ↦ ground (
      arith,
      str_eq_sound id j,
      str_eq_refl j,
      find-append j state.items (record { menu_item_id = id; quantity = nat 1 } ∷ []) g,
    )
    | inr (item, g) ↦ ground (
      arith,
      str_eq_sound id j,
      find-append_found j state.items (record { menu_item_id = id; quantity = nat 1 } ∷ []) item g,
    )
  ]
  | inr (item, e) ↦ ground (arith, str_eq_sound id j, find-update id j add_one state.items)
]

-- A quantity that passes `getSetQuantityResult` becomes the item's quantity; no other changes.
pub quantity-set_quantity :
    (state : CartState) (id j : JsString) (q : Number)
    → get_quantity (cart_reducer state (set_quantity id q)) j ≡ (
        if is_fine (get_set_quantity_result state id q) && str_eq id j
        then q
        else get_quantity state j)
unfolding cart_reducer reduce_set_quantity get_set_quantity_result get_quantity
quantity-set_quantity state id j q = elim (Option-cases (find id state.items)) [
  | inl e ↦ ground arith
  | inr (item, e) ↦ ground (arith, str_eq_sound id j, find-update id j (λ _. q) state.items)
]

-- A removed item has quantity zero, and no other quantity changes.
pub quantity-remove :
    (state : CartState) (id j : JsString)
    → get_quantity (cart_reducer state (remove id)) j
      ≡ (if str_eq id j then nat 0 else get_quantity state j)
unfolding cart_reducer get_quantity
quantity-remove state id j = elim (Option-cases (find id state.items)) [
  | inl e ↦ ground (arith, str_eq_sound id j)
  | inr (item, e) ↦ ground (arith, find-without id j state.items)
]

update_ext :
    (id : JsString) (f g : Number → Number) (items : List CartItem) (item : CartItem)
    → Distinct items
    → find id items ≡ some item
    → f item.quantity ≡ g item.quantity
    → update id f items ≡ update id g items
unfolding update find
update_ext id f g [] item d h e = refl
update_ext id f g (i ∷ items) item d h e = elim (Bool-cases (str_eq i.menu_item_id id)) [
  | inl s ↦
      let same : i.menu_item_id ≡ id = str_eq_sound _ _ s in
      let gone : find id items ≡ none = rw (← same) d.0 in
      ground (arith, update_absent id f items gone, update_absent id g items gone)
  | inr s ↦ ground (arith, update_ext id f g items item d.1)
]

update_same :
    (id : JsString) (items : List CartItem) (item : CartItem)
    → Distinct items
    → find id items ≡ some item
    → update id (λ _. item.quantity) items ≡ items
unfolding update find
update_same id [] item d h = refl
update_same id (i ∷ items) item d h = elim (Bool-cases (str_eq i.menu_item_id id)) [
  | inl s ↦
      let same : i.menu_item_id ≡ id = str_eq_sound _ _ s in
      let gone : find id items ≡ none = rw (← same) d.0 in
      ground (arith, update_absent id (λ _. item.quantity) items gone)
  | inr s ↦ ground (arith, update_same id items item d.1)
]

update-update :
    (id : JsString) (p q : Number) (items : List CartItem)
    → update id (λ _. p) (update id (λ _. q) items) ≡ update id (λ _. p) items
unfolding update
update-update id p q [] = refl
update-update id p q (i ∷ items) = ground (arith, update-update id p q items)

-- A whole quantity in range may be set on an item of the cart.
set_allowed :
    (state : CartState) (id : JsString) (n : ℕ) (item : CartItem)
    → find id state.items ≡ some item
    → 1 ≤ n
    → n ≤ 99
    → reduce_set_quantity state id (nat n) ≡ record { items = update id (λ _. nat n) state.items }
unfolding reduce_set_quantity get_set_quantity_result is_integer num_lt num_gt
set_allowed state id n item e lo hi = ground arith

-- In a valid cart `increment` does to an item of the cart exactly what `add` does.
pub increment-add :
    (state : CartState) (id : JsString) (item : CartItem)
    → IsValid state
    → find_item state id ≡ some item
    → cart_reducer state (increment id) ≡ cart_reducer state (add id)
unfolding cart_reducer reduce_add get_add_result num_ge add_one
increment-add state id item v e =
    let (n, q, lo, hi) = find_all (λ i. InRange i.quantity) id state.items item e v.quantities in
    elim (Bool-cases (leb 99 n)) [
      | inl full ↦ ground arith
      | inr room ↦ ground (
        arith,
        set_allowed state id (n + 1) item e,
        update_ext id (λ _. nat (n + 1)) add_one state.items item v.distinct e,
      )
    ]

increment_whole :
    (state : CartState) (id : JsString) (item : CartItem) (n : ℕ)
    → find_item state id ≡ some item
    → item.quantity ≡ nat n
    → n < 99
    → cart_reducer state (increment id)
      ≡ record { items = update id (λ _. nat (n + 1)) state.items }
unfolding cart_reducer add_one num_ge
increment_whole state id item n e q h = ground (arith, set_allowed state id (n + 1) item e)

decrement_whole :
    (state : CartState) (id : JsString) (item : CartItem) (n : ℕ)
    → find_item state id ≡ some item
    → item.quantity ≡ nat (suc n)
    → 1 ≤ n
    → n ≤ 98
    → cart_reducer state (decrement id) ≡ record { items = update id (λ _. nat n) state.items }
unfolding cart_reducer sub_one num_le
decrement_whole state id item n e q lo hi = ground (arith, set_allowed state id n item e)

-- Below the limit, `decrement` undoes `increment`: the whole cart is as before.
pub decrement-increment :
    (state : CartState) (id : JsString) (item : CartItem)
    → IsValid state
    → find_item state id ≡ some item
    → num_ge item.quantity cart_max_quantity ≡ false
    → cart_reducer (cart_reducer state (increment id)) (decrement id) ≡ state
unfolding num_ge
decrement-increment state id item v e room =
    let (n, q, lo, hi) = find_all (λ i. InRange i.quantity) id state.items item e v.quantities in
    let below : n < 99 = ground arith in
    let raised : List CartItem = update id (λ _. nat (n + 1)) state.items in
    let found : find id raised ≡ some (record item { quantity = nat (n + 1) }) =
      ground (arith, find-update id id (λ _. nat (n + 1)) state.items, str_eq_refl id) in
    cart_reducer (cart_reducer state (increment id)) (decrement id)
    ≡⟨ ap (λ s. cart_reducer s (decrement id)) (increment_whole state id item n e q below) ⟩
      cart_reducer (record { items = raised }) (decrement id)
    ≡⟨ decrement_whole (record { items = raised }) id _ n found (ground arith) lo (omega arith) ⟩
      record { items = update id (λ _. nat n) raised }
    ≡⟨ ground (
      arith,
      update-update id (nat n) (nat (n + 1)) state.items,
      update_same id state.items item v.distinct e,
      ap (λ (x : Number). update id (λ _. x) state.items) q,
    ) ⟩
      state ∎

-- `decrement` neither removes an item nor brings one in.
pub decrement_floor :
    (state : CartState) (id j : JsString)
    → is_found (find_item (cart_reducer state (decrement id)) j) ≡ is_found (find_item state j)
unfolding cart_reducer reduce_set_quantity
decrement_floor state id j = elim (Option-cases (find id state.items)) [
  | inl e ↦ ground arith
  | inr (item, e) ↦ ground (arith, find-update id j (λ _. sub_one item.quantity) state.items)
]
