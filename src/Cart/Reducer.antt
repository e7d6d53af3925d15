-- ===== src/Cart/Reducer.antt =====
-- frontend/src/features/cart/cartReducer.ts
use restaurant_ordering_anal.Base.{
  ℕ, Bool, true, false, not, ◌||◌, List, [], ◌∷◌, ◌++◌, Option, none, some, JsString, str_eq,
  if◌then◌else◌, length, leb, ◌==◌,
}
use restaurant_ordering_anal.Js.{
  Number, nat, is_integer, num_lt, num_gt, num_ge, num_le, add_one, sub_one,
}

abbrev pub cart_min_quantity : ℕ
cart_min_quantity = 1

abbrev pub cart_max_quantity : ℕ
cart_max_quantity = 99

abbrev pub cart_max_unique_items : ℕ
cart_max_unique_items = 50

pub record CartItem : Type 0 where
  pub menu_item_id : JsString
  pub quantity : Number

pub record CartState : Type 0 where
  pub items : List CartItem

pub data CartMutationResult : Type 0 where
  invalid_quantity item_limit item_not_found fine quantity_limit : CartMutationResult

pub data CartAction : Type 0 where
  add : JsString → CartAction
  set_quantity : JsString → Number → CartAction
  increment : JsString → CartAction
  decrement : JsString → CartAction
  remove : JsString → CartAction
  clear : CartAction

abbrev pub empty_cart_state : CartState
empty_cart_state = record { items = [] }

-- `items.find((item) => item.menuItemId === id)`.
unfoldable pub find : JsString → List CartItem → Option CartItem
find id [] = none
find id (item ∷ items) = if str_eq item.menu_item_id id then some item else find id items

abbrev pub find_item : CartState → JsString → Option CartItem
find_item state id = find id state.items

abbrev pub when_found :
    Option CartItem → CartMutationResult → (CartItem → CartMutationResult) → CartMutationResult
when_found none missing found = missing
when_found (some item) missing found = found item

unfoldable pub get_add_result : CartState → JsString → CartMutationResult
get_add_result state id =
    when_found (find_item state id)
      (if leb cart_max_unique_items (length state.items) then item_limit else fine)
      (λ item. if num_ge item.quantity cart_max_quantity then quantity_limit else fine)

unfoldable pub get_set_quantity_result : CartState → JsString → Number → CartMutationResult
get_set_quantity_result state id quantity =
    if not (is_integer quantity) || num_lt quantity cart_min_quantity
    then invalid_quantity
    else if num_gt quantity cart_max_quantity
    then quantity_limit
    else when_found (find_item state id) item_not_found (λ _. fine)

abbrev pub is_fine : CartMutationResult → Bool
is_fine fine = true
is_fine _ = false

-- `items.map((item) => item.menuItemId === id ? { ...item, quantity: f(item.quantity) } : item)`.
unfoldable pub update : JsString → (Number → Number) → List CartItem → List CartItem
update id f [] = []
update id f (item ∷ items) =
    (if str_eq item.menu_item_id id then record item { quantity = f item.quantity } else item)
    ∷ update id f items

-- `items.filter((item) => item.menuItemId !== id)`.
unfoldable pub without : JsString → List CartItem → List CartItem
without id [] = []
without id (item ∷ items) =
    if str_eq item.menu_item_id id then without id items else item ∷ without id items

abbrev pub one_more : JsString → CartState → Option CartItem → CartState
one_more id state none = record {
  items = state.items ++ (record { menu_item_id = id; quantity = nat 1 } ∷ []);
}
one_more id state (some _) = record { items = update id add_one state.items }

unfoldable pub reduce_add : CartState → JsString → CartState
reduce_add state id =
    if is_fine (get_add_result state id) then one_more id state (find_item state id) else state

unfoldable pub reduce_set_quantity : CartState → JsString → Number → CartState
reduce_set_quantity state id quantity =
    if is_fine (get_set_quantity_result state id quantity)
    then record { items = update id (λ _. quantity) state.items }
    else state

abbrev pub reduce_found : CartState → Option CartItem → (CartItem → CartState) → CartState
reduce_found state none f = state
reduce_found state (some item) f = f item

unfoldable pub cart_reducer : CartState → CartAction → CartState
cart_reducer state (add id) = reduce_add state id
cart_reducer state (set_quantity id quantity) = reduce_set_quantity state id quantity
cart_reducer state (increment id) = reduce_found state (find_item state id) λ item.
    if num_ge item.quantity cart_max_quantity
    then state
    else reduce_set_quantity state id (add_one item.quantity)
cart_reducer state (decrement id) = reduce_found state (find_item state id) λ item.
    if num_le item.quantity cart_min_quantity
    then state
    else reduce_set_quantity state id (sub_one item.quantity)
cart_reducer state (remove id) =
    reduce_found state (find_item state id) λ _. record { items = without id state.items }
cart_reducer state clear = if length state.items == 0 then state else empty_cart_state
