-- ===== src/Cart/RoundTrip.antt =====
-- A saved cart is the cart that is loaded.
use restaurant_ordering_anal.Base.{
  ◌≡◌, refl, ap, true, false, List, [], ◌∷◌, map, none, some, JsString, All, arith, str_eq,
  str_eq_refl, str_eq_sym, length-map, one_of,
}
use restaurant_ordering_anal.Js.{
  is_integer, num_lt, num_gt, num_eq, Value, get, elements, from_elements, is_json, all_json, Json,
  Storage, get_item, set_item,
}
use restaurant_ordering_anal.Js.Keys.{has_exact_keys}
use restaurant_ordering_anal.Cart.Reducer.{CartItem, CartState, find}
use restaurant_ordering_anal.Cart.Items.{Distinct}
use restaurant_ordering_anal.Cart.Invariant.{InRange, IsValid}
use restaurant_ordering_anal.Cart.Persistence.{HasUuid, IsStorable}
use restaurant_ordering_anal.Cart.Storage.{
  parse_candidate, parse_candidates, parse_stored_items, parse_cart, encode_item, encode_cart,
  load_cart_state, save_cart_state, cart_storage_key,
}

fresh_of_find-none :
    (id : JsString) (seen : List JsString) (items : List CartItem)
    → find id items ≡ none
    → All (λ item. one_of seen item.menu_item_id ≡ false) items
    → All (λ item. one_of (id ∷ seen) item.menu_item_id ≡ false) items
unfolding find
fresh_of_find-none id seen [] h f = tt
fresh_of_find-none id seen (i ∷ items) h f =
    let rest = fresh_of_find-none id seen items (ground arith) f.1 in
    ground (arith, str_eq_sym id i.menu_item_id)

encode_item-parse :
    (seen : List JsString) (item : CartItem)
    → HasUuid item
    → InRange item.quantity
    → one_of seen item.menu_item_id ≡ false
    → parse_candidate seen (encode_item item) ≡ some item
unfolding parse_candidate get str_eq has_exact_keys is_integer num_lt num_gt
encode_item-parse seen item u (n, q, lo, hi) f = ground arith

encode_items-parse :
    (seen : List JsString) (items : List CartItem)
    → All HasUuid items
    → All (λ item. InRange item.quantity) items
    → Distinct items
    → All (λ item. one_of seen item.menu_item_id ≡ false) items
    → parse_candidates seen (map encode_item items) ≡ some items
unfolding parse_candidates
encode_items-parse seen [] u q d f = refl
encode_items-parse seen (i ∷ items) u q d f =
    let here = encode_item-parse seen i u.0 q.0 f.0 in
    let fresh = fresh_of_find-none i.menu_item_id seen items d.0 f.1 in
    let later = encode_items-parse (i.menu_item_id ∷ seen) items u.1 q.1 d.1 fresh in ground arith

pub elements-from_elements : (vs : List Value) → elements (from_elements vs) ≡ vs
elements-from_elements [] = refl
elements-from_elements (v ∷ vs) = ap (◌∷◌ v) (elements-from_elements vs)

encode_item-is_json : (item : CartItem) → InRange item.quantity → is_json (encode_item item) ≡ true
unfolding is_json str_eq
encode_item-is_json item (n, q, lo, hi) = ground arith

encode_items-is_json :
    (items : List CartItem)
    → All (λ item. InRange item.quantity) items
    → all_json (from_elements (map encode_item items)) ≡ true
unfolding is_json
encode_items-is_json [] q = refl
encode_items-is_json (i ∷ items) q = rw (encode_item-is_json i q.0, encode_items-is_json items q.1)

encode_cart-is_json : (state : CartState) → IsValid state → is_json (encode_cart state) ≡ true
unfolding is_json str_eq
encode_cart-is_json state v = rw (encode_items-is_json state.items v.quantities)

all_unseen : (items : List CartItem) → All (λ item. one_of [] item.menu_item_id ≡ false) items
all_unseen [] = tt
all_unseen (i ∷ items) = (refl, all_unseen items)

encode_cart-parse :
    (state : CartState) → IsStorable state → parse_cart (encode_cart state) ≡ some state
unfolding parse_cart get str_eq has_exact_keys parse_stored_items num_eq
encode_cart-parse state s = ground (
  arith,
  elements-from_elements (map encode_item state.items),
  length-map encode_item state.items,
  encode_items-parse [] state.items s.uuids s.valid.quantities s.valid.distinct
      (all_unseen state.items),
)

-- A storable cart that was saved where the storage allows it is loaded as it was.
pub load-save :
    (json : Json) (storage : Storage json.Text) (state : CartState)
    → IsStorable state
    → storage.can_write ≡ true
    → storage.can_read ≡ true
    → load_cart_state json (save_cart_state json state storage).0 ≡ state
unfolding load_cart_state save_cart_state get_item set_item
load-save json storage state s w r = ground (
  arith,
  str_eq_refl cart_storage_key,
  json.parse-stringify (encode_cart state) (encode_cart-is_json state s.valid),
  encode_cart-parse state s,
)

-- Saving reports whether the write was granted, and leaves every entry but the cart's as it was.
pub save_cart_state_frame :
    (json : Json) (storage : Storage json.Text) (state : CartState) (k : JsString)
    → str_eq cart_storage_key k ≡ false
    → ((save_cart_state json state storage).1 ≡ storage.can_write)
      × ((save_cart_state json state storage).0.entry k ≡ storage.entry k)
unfolding save_cart_state set_item
save_cart_state_frame json storage state k h = ground arith
