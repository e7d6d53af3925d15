-- ===== src/Cart/Persistence.antt =====
-- What comes back from storage.
use restaurant_ordering_anal.Base.{
  suc, ◌≤◌, ◌≡◌, refl, ap, true, false, List, [], ◌∷◌, Option, none, some, JsString, js, length,
  All, arith, Option-cases, inl, inr, str_eq_sym, Outcome, ok, throw, one_of,
}
use restaurant_ordering_anal.Base.Maybe.{◌>>=◌, >>=-eq-some}
use restaurant_ordering_anal.Js.{
  in_range, Value, get, as_record, as_array, Json, Storage, get_item, Fault,
}
use restaurant_ordering_anal.Js.Pattern.{matches, uuid_pattern}
use restaurant_ordering_anal.Cart.Reducer.{CartItem, CartState, empty_cart_state, find}
use restaurant_ordering_anal.Cart.Items.{Distinct}
use restaurant_ordering_anal.Cart.Invariant.{InRange, IsValid, empty-IsValid}
use restaurant_ordering_anal.Cart.Storage.{
  parse_candidate, parse_candidates, parse_stored_items, parse_cart, load_cart_state,
  cart_storage_key, read_cart, or_empty,
}

abbrev pub HasUuid : CartItem → Type 0
HasUuid item = matches uuid_pattern item.menu_item_id ≡ true

-- A valid cart all of whose identifiers are UUIDs.
pub record IsStorable (state : CartState) : Type 0 where
  pub valid : IsValid state
  pub uuids : All HasUuid state.items

-- What one accepted candidate is known to be.
abbrev Accepted : List JsString → CartItem → Type 0
Accepted seen item = HasUuid item × InRange item.quantity × (one_of seen item.menu_item_id ≡ false)

parse_candidate-Accepted :
    (seen : List JsString) (v : Value) (item : CartItem)
    → parse_candidate seen v ≡ some item
    → Accepted seen item
unfolding parse_candidate
parse_candidate-Accepted seen v item h = (
  ground arith,
  in_range 1 99 item.quantity (ground arith) (ground arith) (ground arith),
  ground arith,
)

-- What an accepted list is known to be.
record AllAccepted (seen : List JsString) (vs : List Value) (items : List CartItem) : Type 0 where
  same_length : length items ≡ length vs
  uuids : All HasUuid items
  quantities : All (λ item. InRange item.quantity) items
  distinct : Distinct items
  fresh : All (λ item. one_of seen item.menu_item_id ≡ false) items

find-none_of_fresh :
    (id : JsString) (seen : List JsString) (items : List CartItem)
    → All (λ item. one_of (id ∷ seen) item.menu_item_id ≡ false) items
    → (find id items ≡ none) × All (λ item. one_of seen item.menu_item_id ≡ false) items
unfolding find
find-none_of_fresh id seen [] f = (refl, tt)
find-none_of_fresh id seen (i ∷ items) f =
    let rest = find-none_of_fresh id seen items f.1 in ground (arith, str_eq_sym id i.menu_item_id)

parse_candidates-AllAccepted :
    (seen : List JsString) (vs : List Value) (items : List CartItem)
    → parse_candidates seen vs ≡ some items
    → AllAccepted seen vs items
unfolding parse_candidates
parse_candidates-AllAccepted seen [] items h = ground arith
parse_candidates-AllAccepted seen (v ∷ vs) items h = elim (Option-cases (parse_candidate seen v)) [
  | inl e ↦ absurd (ground arith)
  | inr (item, e) ↦ elim (Option-cases (parse_candidates (item.menu_item_id ∷ seen) vs)) [
    | inl g ↦ absurd (ground arith)
    | inr (rest, g) ↦
        let all = parse_candidates-AllAccepted (item.menu_item_id ∷ seen) vs rest g in
        let one = parse_candidate-Accepted seen v item e in
        let (gone, fresh) = find-none_of_fresh item.menu_item_id seen rest all.fresh in
        let same : items ≡ item ∷ rest = ground arith in
        rw same (record {
          same_length = ap suc all.same_length;
          uuids = (one.0, all.uuids);
          quantities = (one.1, all.quantities);
          distinct = (gone, all.distinct);
          fresh = (one.2, fresh);
        })
  ]
]

parse_stored_items-IsStorable :
    (v : Value) (items : List CartItem)
    → parse_stored_items v ≡ some items
    → IsStorable (record { items = items })
unfolding parse_stored_items
parse_stored_items-IsStorable v items h = elim (Option-cases (as_array v)) [
  | inl e ↦ absurd (ground arith)
  | inr (vs, e) ↦
      let accepted = parse_candidates-AllAccepted [] vs items (ground arith) in
      let few : length vs ≤ 50 = ground arith in
      record {
        valid = record {
          bounded = omega (arith, accepted.same_length);
          quantities = accepted.quantities;
          distinct = accepted.distinct;
        };
        uuids = accepted.uuids;
      }
]

parse_cart-IsStorable :
    (v : Value) (state : CartState) → parse_cart v ≡ some state → IsStorable state
unfolding parse_cart
parse_cart-IsStorable v state h = elim (Option-cases (as_record v)) [
  | inl e ↦ absurd (ground arith)
  | inr (fs, e) ↦ parse_stored_items-IsStorable (get (js "items") fs) state.items (ground arith)
]

empty-IsStorable : IsStorable empty_cart_state
empty-IsStorable = record { valid = empty-IsValid; uuids = tt }

or_empty-IsStorable :
    (o : Option CartState)
    → ((state : CartState) → o ≡ some state → IsStorable state)
    → IsStorable (or_empty o)
or_empty-IsStorable none h = empty-IsStorable
or_empty-IsStorable (some state) h = h state refl

-- Whatever the tab's storage holds, and whatever it refuses, the loaded cart is valid and its
-- identifiers are UUIDs.
pub load_cart_state-IsStorable :
    (json : Json) (storage : Storage json.Text) → IsStorable (load_cart_state json storage)
unfolding load_cart_state
load_cart_state-IsStorable json storage = read (get_item storage cart_storage_key)
  where
    read : (o : Outcome Fault (Option json.Text)) → IsStorable (read_cart json o)
    read (throw e) = empty-IsStorable
    read (ok none) = empty-IsStorable
    read (ok (some serialized)) =
        or_empty-IsStorable (json.parse serialized >>= parse_cart) λ state h.
          let (v, _, parsed) = >>=-eq-some (json.parse serialized) parse_cart h in
          parse_cart-IsStorable v state parsed
