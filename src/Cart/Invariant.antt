-- ===== src/Cart/Invariant.antt =====
-- What every reachable cart satisfies.
use restaurant_ordering_anal.Base.{
  ℕ, ◌+◌, ◌≤◌, ◌≡◌, refl, true, false, none, some, JsString, length, All, All-append, arith,
  Bool-cases, Option-cases, inl, inr, length-append,
}
use restaurant_ordering_anal.Js.{Number, nat, num_ge, num_le, add_one, sub_one, in_range}
use restaurant_ordering_anal.Cart.Reducer.{
  CartItem, CartState, CartAction, add, set_quantity, increment, decrement, remove, clear,
  CartMutationResult, invalid_quantity, item_limit, item_not_found, fine, quantity_limit,
  cart_min_quantity, cart_max_quantity, cart_max_unique_items, empty_cart_state, find,
  get_add_result, get_set_quantity_result, is_fine, reduce_add, reduce_set_quantity, cart_reducer,
}
use restaurant_ordering_anal.Cart.Items.{
  Distinct, find_all, update-All, update-Distinct, length-update, without-All, without-Distinct,
  length-without-le, append-Distinct,
}

-- A whole number from 1 to 99.
abbrev pub InRange : Number → Type 0
InRange q = (n : ℕ) × (q ≡ nat n) × (cart_min_quantity ≤ n) × (n ≤ cart_max_quantity)

-- At most 50 items, each once, in quantities from 1 to 99.
pub record IsValid (state : CartState) : Type 0 where
  pub bounded : length state.items ≤ cart_max_unique_items
  pub quantities : All (λ item. InRange item.quantity) state.items
  pub distinct : Distinct state.items

pub is_fine→fine : (r : CartMutationResult) → is_fine r ≡ true → r ≡ fine
is_fine→fine invalid_quantity h = cc
is_fine→fine item_limit h = cc
is_fine→fine item_not_found h = cc
is_fine→fine fine h = refl
is_fine→fine quantity_limit h = cc

-- A quantity that `getSetQuantityResult` lets through.
pub set_fine-InRange :
    (state : CartState) (id : JsString) (q : Number)
    → is_fine (get_set_quantity_result state id q) ≡ true
    → InRange q
unfolding get_set_quantity_result
set_fine-InRange state id q h = in_range 1 99 q (ground arith) (ground arith) (ground arith)

set_quantity-IsValid :
    (state : CartState) (id : JsString) (q : Number)
    → IsValid state
    → IsValid (reduce_set_quantity state id q)
unfolding reduce_set_quantity
set_quantity-IsValid state id q v =
    elim (Bool-cases (is_fine (get_set_quantity_result state id q))) [
      | inr h ↦ rw h v
      | inl h ↦ rw h (record {
        bounded = rw (length-update id (λ _. q) state.items) v.bounded;
        quantities =
            update-All (λ item. InRange item.quantity) id (λ _. q) state.items v.distinct
              v.quantities (λ _ _. set_fine-InRange state id q h);
        distinct = update-Distinct id (λ _. q) state.items v.distinct;
      })
    ]

-- One more of a quantity below the limit.
add_one-InRange :
    (q : Number) → InRange q → num_ge q cart_max_quantity ≡ false → InRange (add_one q)
unfolding add_one num_ge
add_one-InRange q (n, e, lo, hi) h = (n + 1, ground arith, omega arith, ground arith)

add_fine_found :
    (state : CartState) (id : JsString) (item : CartItem)
    → find id state.items ≡ some item
    → is_fine (get_add_result state id) ≡ true
    → num_ge item.quantity cart_max_quantity ≡ false
unfolding get_add_result
add_fine_found state id item e h = ground arith

add_fine_missing :
    (state : CartState) (id : JsString)
    → find id state.items ≡ none
    → is_fine (get_add_result state id) ≡ true
    → length state.items + 1 ≤ cart_max_unique_items
unfolding get_add_result
add_fine_missing state id e h = ground arith

add-IsValid : (state : CartState) (id : JsString) → IsValid state → IsValid (reduce_add state id)
unfolding reduce_add
add-IsValid state id v = elim (Bool-cases (is_fine (get_add_result state id))) [
  | inr h ↦ rw h v
  | inl h ↦ elim (Option-cases (find id state.items)) [
    | inl e ↦
        rw (h, e)
          (record {
            bounded = rw (length-append state.items) (add_fine_missing state id e h);
            quantities =
                All-append (λ item. InRange item.quantity) state.items _ v.quantities
                  ((1, refl, omega arith, omega arith), tt);
            distinct = append-Distinct state.items _ v.distinct e;
          })
    | inr (item, e) ↦
        rw (h, e)
          (record {
            bounded = rw (length-update id add_one state.items) v.bounded;
            quantities =
                update-All (λ item. InRange item.quantity) id add_one state.items v.distinct
                  v.quantities
                  (λ found g.
                    add_one-InRange found.quantity
                      (find_all (λ item. InRange item.quantity) id state.items found g v.quantities)
                      (add_fine_found state id found g h));
            distinct = update-Distinct id add_one state.items v.distinct;
          })
  ]
]

-- Every action keeps a cart valid: at most 50 distinct items, in whole quantities from 1 to 99.
pub cart_reducer-IsValid :
    (state : CartState) (action : CartAction) → IsValid state → IsValid (cart_reducer state action)
unfolding cart_reducer
cart_reducer-IsValid state (add id) v = add-IsValid state id v
cart_reducer-IsValid state (set_quantity id q) v = set_quantity-IsValid state id q v
cart_reducer-IsValid state (increment id) v = elim (Option-cases (find id state.items)) [
  | inl e ↦ rw e v
  | inr (item, e) ↦ rw e (elim (Bool-cases (num_ge item.quantity cart_max_quantity)) [
    | inl h ↦ rw h v
    | inr h ↦ rw h (set_quantity-IsValid state id (add_one item.quantity) v)
  ])
]
cart_reducer-IsValid state (decrement id) v = elim (Option-cases (find id state.items)) [
  | inl e ↦ rw e v
  | inr (item, e) ↦ rw e (elim (Bool-cases (num_le item.quantity cart_min_quantity)) [
    | inl h ↦ rw h v
    | inr h ↦ rw h (set_quantity-IsValid state id (sub_one item.quantity) v)
  ])
]
cart_reducer-IsValid state (remove id) v = elim (Option-cases (find id state.items)) [
  | inl e ↦ rw e v
  | inr (item, e) ↦ rw e (record {
    bounded = omega (arith, length-without-le id state.items, v.bounded);
    quantities = without-All (λ item. InRange item.quantity) id state.items v.quantities;
    distinct = without-Distinct id state.items v.distinct;
  })
]
cart_reducer-IsValid state clear v = ground arith

pub empty-IsValid : IsValid empty_cart_state
empty-IsValid = record { bounded = omega arith; quantities = tt; distinct = tt }
