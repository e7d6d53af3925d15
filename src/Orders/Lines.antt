-- ===== src/Orders/Lines.antt =====
-- What an accepted list of lines is.
use mathlib.Core.List.{map}
use restaurant_ordering_anal.Base.{
  ℕ, suc, ◌≤◌, ◌<◌, ◌≡◌, Bool, true, false, List, [], ◌∷◌, JsString, js, str_eq_sound, length,
  length-map, one_of, All, Outcome, ok, arith, Option-cases, inl, inr, ap, sym, ◌∙◌, >>=-eq-ok,
}
use restaurant_ordering_anal.Js.{
  Number, nat, num_eq-nat_left, in_range, object, get, positive_safe, max_safe_integer, Value,
  as_array,
}
use restaurant_ordering_anal.Js.Pattern.{matches, uuid_pattern}
use restaurant_ordering_anal.Api.Errors.{ApiRequestError}
use restaurant_ordering_anal.Orders.Fields.{
  QuoteLine, QuoteItemRequest, map_ok, set_size, parse_quantity, parse_positive_amount, parse_line,
  line_id, parse_lines, answers, invalid_contract, validate_items_from, validate_quote_items,
}

abbrev pub IsQuantity : Number → Type 0
IsQuantity q = (n : ℕ) × (q ≡ nat n) × (1 ≤ n) × (n ≤ 99)

abbrev pub IsAmount : Number → Type 0
IsAmount a = (n : ℕ) × (a ≡ nat n) × (0 < n) × (n ≤ max_safe_integer)

pub record IsLine (is_valid_name : JsString → Bool) (line : QuoteLine) : Type 0 where
  pub id : matches uuid_pattern line.menu_item_id ≡ true
  pub name : is_valid_name line.name ≡ true
  pub quantity : IsQuantity line.quantity
  pub unit_price : IsAmount line.unit_price_amount
  pub line_total : IsAmount line.line_total_amount

-- No identifier stands twice.
abbrev pub DistinctIds : List JsString → Type 0
DistinctIds [] = Unit {0}
DistinctIds (id ∷ ids) = (one_of ids id ≡ false) × DistinctIds ids

pub record AreLines (is_valid_name : JsString → Bool) (items : List QuoteLine) : Type 0 where
  pub some_lines : 1 ≤ length items
  pub few_lines : length items ≤ 50
  pub each : All (IsLine is_valid_name) items
  pub distinct : DistinctIds (map line_id items)

pub parse_quantity_sound :
    (v : Value) (e : ApiRequestError) (q : Number) → parse_quantity v e ≡ ok q → IsQuantity q
unfolding parse_quantity
parse_quantity_sound v e q h = in_range 1 99 q (ground arith) (ground arith) (ground arith)

pub parse_positive_amount_sound :
    (v : Value) (e : ApiRequestError) (a : Number) → parse_positive_amount v e ≡ ok a → IsAmount a
unfolding parse_positive_amount
parse_positive_amount_sound v e a h = positive_safe a (ground arith) (ground arith)

parse_line_sound :
    (t : JsString → Bool) (v : Value) (line : QuoteLine) → parse_line t v ≡ ok line → IsLine t line
unfolding parse_line
parse_line_sound t (object fs) line h = record {
  id = ground arith;
  name = ground arith;
  quantity =
      parse_quantity_sound (get (js "quantity") fs) invalid_contract line.quantity (ground arith);
  unit_price =
      parse_positive_amount_sound (get (js "unit_price_amount") fs) invalid_contract
        line.unit_price_amount (ground arith);
  line_total =
      parse_positive_amount_sound (get (js "line_total_amount") fs) invalid_contract
        line.line_total_amount (ground arith);
}
parse_line_sound t _ line h = absurd (cc)

set_size-le : (ids : List JsString) → set_size ids ≤ length ids
unfolding set_size
set_size-le [] = omega arith
set_size-le (id ∷ ids) = ground (arith, set_size-le ids)

-- A set has as many elements as the list only if no element stands twice.
set_size-distinct : (ids : List JsString) → set_size ids ≡ length ids → DistinctIds ids
unfolding set_size
set_size-distinct [] h = tt
set_size-distinct (id ∷ ids) h = ground (arith, set_size-le ids, set_size-distinct ids)

module _ {A B : Type 0} (P : B → Type 0) (parse : A → Outcome ApiRequestError B)
    (sound : (v : A) (b : B) → parse v ≡ ok b → P b) where
  pub map_ok_sound :
      (vs : List A) (bs : List B) → map_ok parse vs ≡ ok bs → All P bs × (length bs ≡ length vs)
  unfolding map_ok
  map_ok_sound [] bs h = ground arith
  map_ok_sound (v ∷ vs) bs h =
      let (b, e, rest) = >>=-eq-ok (parse v) _ h in
      let (items, g, last) = >>=-eq-ok (map_ok parse vs) _ rest in
      let ih = map_ok_sound vs items g in
      let same : bs ≡ b ∷ items = ground arith in rw same ((sound v b e, ih.0), ap suc ih.1)

pub parse_lines_sound :
    (t : JsString → Bool) (v : Value) (items : List QuoteLine)
    → parse_lines t v ≡ ok items
    → AreLines t items
unfolding parse_lines
parse_lines_sound t v items h = elim (Option-cases (as_array v)) [
  | inl e ↦ absurd (ground arith)
  | inr (vs, e) ↦
      let parsed : map_ok (parse_line t) vs ≡ ok items = ground arith in
      let (each, same) =
        map_ok_sound (IsLine t) (parse_line t) (parse_line_sound t) vs items parsed in
      let distinct : set_size (map line_id items) ≡ length items = ground arith in
      record {
        some_lines = ground arith;
        few_lines = ground arith;
        each = each;
        distinct =
            set_size-distinct (map line_id items) (distinct ∙ sym (length-map line_id items));
      }
]

abbrev pub item_id : QuoteItemRequest → JsString
item_id item = item.menu_item_id

-- Line by line: the same item in the same quantity.
abbrev pub Answers : List QuoteLine → List QuoteItemRequest → Type 0
Answers [] [] = Unit {0}
Answers [] (item ∷ items) = ⊥
Answers (line ∷ lines) [] = ⊥
Answers (line ∷ lines) (item ∷ items) =
    (line.menu_item_id ≡ item.menu_item_id) × (line.quantity ≡ item.quantity) × Answers lines items

pub answers_sound :
    (t : JsString → Bool) (lines : List QuoteLine) (items : List QuoteItemRequest)
    → All (IsLine t) lines
    → answers lines items ≡ true
    → Answers lines items
unfolding answers
answers_sound t [] [] a h = tt
answers_sound t [] (i ∷ items) a h = absurd (cc)
answers_sound t (l ∷ lines) [] a h = absurd (cc)
answers_sound t (l ∷ lines) (i ∷ items) a h =
    let (n, q, lo, hi) = (a.0).quantity in
    (
      str_eq_sound l.menu_item_id i.menu_item_id (ground arith),
      q ∙ sym (num_eq-nat_left i.quantity n (ground arith)),
      answers_sound t lines items a.1 (ground arith),
    )

-- What a request is checked for before it is sent.
abbrev pub IsRequestItem : QuoteItemRequest → Type 0
IsRequestItem item = (matches uuid_pattern item.menu_item_id ≡ true) × IsQuantity item.quantity

pub record AreRequestItems (items : List QuoteItemRequest) : Type 0 where
  pub some_items : 1 ≤ length items
  pub few_items : length items ≤ 50
  pub each : All IsRequestItem items

validate_items_from_sound :
    (seen : List JsString) (items : List QuoteItemRequest)
    → validate_items_from seen items ≡ true
    → All IsRequestItem items
unfolding validate_items_from
validate_items_from_sound seen [] h = tt
validate_items_from_sound seen (i ∷ items) h =
    let rest = validate_items_from_sound (i.menu_item_id ∷ seen) items (ground arith) in
    ((ground arith, in_range 1 99 i.quantity (ground arith) (ground arith) (ground arith)), rest)

pub validate_quote_items_sound :
    (items : List QuoteItemRequest) → validate_quote_items items ≡ ok tt → AreRequestItems items
unfolding validate_quote_items
validate_quote_items_sound items h = record {
  some_items = ground arith;
  few_items = ground arith;
  each = validate_items_from_sound [] items (ground arith);
}
