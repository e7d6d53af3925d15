-- ===== src/Cart/Storage.antt =====
-- frontend/src/features/cart/cartStorage.ts
use restaurant_ordering_anal.Base.{
  ℕ, Bool, true, false, not, List, [], ◌∷◌, map, Option, none, some, JsString, js, length, ltb,
  one_of, Outcome, ok, throw,
}
use restaurant_ordering_anal.Base.Maybe.{◌>>=◌, ◌>>◌, guard}
use restaurant_ordering_anal.Js.{
  nat, is_integer, num_lt, num_gt, Value, number, string, array, object, field, end, get, as_record,
  as_string, as_number, as_array, is_number, from_elements, Json, Storage, Fault, get_item,
  set_item,
}
use restaurant_ordering_anal.Js.Keys.{has_exact_keys}
use restaurant_ordering_anal.Js.Pattern.{matches, uuid_pattern}
use restaurant_ordering_anal.Cart.Reducer.{
  CartItem, CartState, cart_min_quantity, cart_max_quantity, cart_max_unique_items,
  empty_cart_state,
}

abbrev pub cart_storage_key : JsString
cart_storage_key = js "restaurant-ordering:cart:v1"

abbrev pub cart_storage_version : ℕ
cart_storage_version = 1

-- One round of the loop of `parseStoredItems`.
unfoldable pub parse_candidate : List JsString → Value → Option CartItem
parse_candidate seen_ids candidate = do
  fields ← as_record candidate
  guard (has_exact_keys fields (js "menuItemId" ∷ js "quantity" ∷ []))
  id ← as_string (get (js "menuItemId") fields)
  guard (matches uuid_pattern id)
  quantity ← as_number (get (js "quantity") fields)
  guard (is_integer quantity)
  guard (not (num_lt quantity cart_min_quantity))
  guard (not (num_gt quantity cart_max_quantity))
  guard (not (one_of seen_ids id))
  some (record { menu_item_id = id; quantity = quantity })

unfoldable pub parse_candidates : List JsString → List Value → Option (List CartItem)
parse_candidates seen_ids [] = some []
parse_candidates seen_ids (candidate ∷ candidates) = do
  item ← parse_candidate seen_ids candidate
  items ← parse_candidates (item.menu_item_id ∷ seen_ids) candidates
  some (item ∷ items)

unfoldable pub parse_stored_items : Value → Option (List CartItem)
parse_stored_items value = do
  candidates ← as_array value
  guard (not (ltb cart_max_unique_items (length candidates)))
  parse_candidates [] candidates

-- What `loadCartState` makes of the parsed text.
unfoldable pub parse_cart : Value → Option CartState
parse_cart candidate = do
  fields ← as_record candidate
  guard (has_exact_keys fields (js "items" ∷ js "version" ∷ []))
  guard (is_number (nat cart_storage_version) (get (js "version") fields))
  items ← parse_stored_items (get (js "items") fields)
  some (record { items = items })

-- `{ items: state.items, version: CART_STORAGE_VERSION }`.
abbrev pub encode_item : CartItem → Value
encode_item item = object (
    field (js "menuItemId") (string item.menu_item_id)
      (field (js "quantity") (number item.quantity) end))

abbrev pub encode_cart : CartState → Value
encode_cart state = object (
    field (js "items") (array (from_elements (map encode_item state.items)))
      (field (js "version") (number (nat cart_storage_version)) end))

abbrev pub or_empty : Option CartState → CartState
or_empty none = empty_cart_state
or_empty (some state) = state

module _ (json : Json) where
  open json use {Text, parse, stringify}

  abbrev pub read_cart : Outcome Fault (Option Text) → CartState
  read_cart (throw e) = empty_cart_state
  read_cart (ok none) = empty_cart_state
  read_cart (ok (some serialized)) = or_empty (parse serialized >>= parse_cart)

  unfoldable pub load_cart_state : Storage Text → CartState
  load_cart_state storage = read_cart (get_item storage cart_storage_key)

  abbrev saved : Storage Text → Outcome Fault (Storage Text) → Storage Text × Bool
  saved storage (ok storage') = (storage', true)
  saved storage (throw e) = (storage, false)

  unfoldable pub save_cart_state : CartState → Storage Text → Storage Text × Bool
  save_cart_state state storage =
      saved storage (set_item storage cart_storage_key (stringify (encode_cart state)))
