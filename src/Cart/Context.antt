-- ===== src/Cart/Context.antt =====
-- The operations that the provider of frontend/src/features/cart/CartContext.tsx hands out. A callback
-- tests the cart that it was rendered with and dispatches to the reducer, which works on the current
-- cart: the two are the arguments `rendered` and `current`, equal unless an update is under way.
use restaurant_ordering_anal.Base.{
  ℕ, ◌+◌, List, [], ◌∷◌, Option, none, some, JsString, if◌then◌else◌, length,
}
use restaurant_ordering_anal.Js.{Number, nat, add_one}
use restaurant_ordering_anal.Cart.Reducer.{
  CartItem, CartState, CartAction, add, set_quantity, increment, decrement, remove, clear,
  CartMutationResult, item_not_found, find_item, get_add_result, get_set_quantity_result, is_fine,
  cart_reducer,
}

-- `if (result === 'ok') dispatch(action)`, with the result returned.
abbrev dispatch_if_fine :
    CartState → CartAction → CartMutationResult → CartState × CartMutationResult
dispatch_if_fine current action result =
    (if is_fine result then cart_reducer current action else current, result)

unfoldable pub add_item : CartState → CartState → JsString → CartState × CartMutationResult
add_item rendered current id = dispatch_if_fine current (add id) (get_add_result rendered id)

unfoldable pub change_quantity :
    CartState → CartState → JsString → Number → CartState × CartMutationResult
change_quantity rendered current id quantity =
    dispatch_if_fine current (set_quantity id quantity)
      (get_set_quantity_result rendered id quantity)

abbrev increment_found :
    CartState → CartState → JsString → Option CartItem → CartState × CartMutationResult
increment_found rendered current id none = (current, item_not_found)
increment_found rendered current id (some item) =
    dispatch_if_fine current (increment id)
      (get_set_quantity_result rendered id (add_one item.quantity))

unfoldable pub increment_item : CartState → CartState → JsString → CartState × CartMutationResult
increment_item rendered current id = increment_found rendered current id (find_item rendered id)

unfoldable pub decrement_item : CartState → JsString → CartState
decrement_item current id = cart_reducer current (decrement id)

unfoldable pub remove_item : CartState → JsString → CartState
remove_item current id = cart_reducer current (remove id)

unfoldable pub clear_cart : CartState → CartState
clear_cart current = cart_reducer current clear

abbrev quantity_or_zero : Option CartItem → Number
quantity_or_zero none = nat 0
quantity_or_zero (some item) = item.quantity

unfoldable pub get_quantity : CartState → JsString → Number
get_quantity state id = quantity_or_zero (find_item state id)

abbrev pub natural : Number → Option ℕ
natural (nat n) = some n
natural _ = none

abbrev pub plus : Option ℕ → Option ℕ → Option ℕ
plus (some m) (some n) = some (m + n)
plus _ _ = none

-- `items.reduce((total, item) => total + item.quantity, 0)`; `none` where a quantity is no natural
-- number, which no valid cart holds.
unfoldable pub total_quantity : List CartItem → Option ℕ
total_quantity [] = some 0
total_quantity (item ∷ items) = plus (natural item.quantity) (total_quantity items)

abbrev pub unique_item_count : CartState → ℕ
unique_item_count state = length state.items
