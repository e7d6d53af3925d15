-- ===== src/Cart/Tests.antt =====
-- The theorems on the cart, at concrete carts and storages.
use restaurant_ordering_anal.Base.{ℕ, ◌≤◌, ◌≡◌, refl, none, some, arith, str_eq}
use restaurant_ordering_anal.Js.Pattern.{matches, uuid_pattern, hex}
use restaurant_ordering_anal.Fixtures.{plain_json, tab, bread, cart}
use restaurant_ordering_anal.Cart.Reducer.{add, find, cart_reducer}
use restaurant_ordering_anal.Cart.Context.{total_quantity, unique_item_count}
use restaurant_ordering_anal.Cart.Storage.{load_cart_state, save_cart_state, encode_cart}
use restaurant_ordering_anal.Cart.Invariant.{IsValid, cart_reducer-IsValid}
use restaurant_ordering_anal.Cart.Totals.{total_quantity_bounds}
use restaurant_ordering_anal.Cart.Persistence.{IsStorable, load_cart_state-IsStorable}
use restaurant_ordering_anal.Cart.RoundTrip.{load-save}

cart-IsValid : IsValid cart
unfolding find str_eq
cart-IsValid = record {
  bounded = omega arith;
  quantities = ((2, refl, omega arith, omega arith), ((1, refl, omega arith, omega arith), tt));
  distinct = (refl, (refl, tt));
}

cart-IsStorable : IsStorable cart
unfolding matches uuid_pattern hex
cart-IsStorable = record { valid = cart-IsValid; uuids = (refl, (refl, tt)) }

cart_reducer-IsValid_example : IsValid (cart_reducer cart (add bread))
cart_reducer-IsValid_example = cart_reducer-IsValid cart (add bread) cart-IsValid

load_cart_state-IsStorable_example :
    IsStorable (load_cart_state plain_json (tab (some (encode_cart cart))))
load_cart_state-IsStorable_example =
    load_cart_state-IsStorable plain_json (tab (some (encode_cart cart)))

load-save_example : load_cart_state plain_json (save_cart_state plain_json cart (tab none)).0 ≡ cart
load-save_example = load-save plain_json (tab none) cart cart-IsStorable refl refl

total_quantity_bounds_example :
    (t : ℕ) × (total_quantity cart.items ≡ some t) × (unique_item_count cart ≤ t) × (t ≤ 4950)
total_quantity_bounds_example = total_quantity_bounds cart cart-IsValid
