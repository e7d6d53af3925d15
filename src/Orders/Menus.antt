-- ===== src/Orders/Menus.antt =====
-- What `fetchMenu` promises.
use restaurant_ordering_anal.Base.{
  ℕ, ◌≤◌, ◌<◌, ◌≡◌, refl, true, false, [], ◌∷◌, none, JsString, js, length, All, ok, >>=-eq-ok,
  arith, ◌==◌, ==_iff, Option-cases, inl, inr,
}
use restaurant_ordering_anal.Js.{
  Number, nat, is_safe_integer, num_lt, max_safe_integer, Value, object, get, as_array,
}
use restaurant_ordering_anal.Js.Pattern.{matches, uuid_pattern, currency_pattern}
use restaurant_ordering_anal.Api.Config.{build_api_url, resolve_api_request_timeout_ms}
use restaurant_ordering_anal.Api.Exchange.{World, request_json, settle_json}
use restaurant_ordering_anal.Orders.Fields.{is_name, map_ok, invalid_contract}
use restaurant_ordering_anal.Orders.Lines.{IsAmount, parse_positive_amount_sound, map_ok_sound}
use restaurant_ordering_anal.Orders.Quoted.{send_within_ok}
use restaurant_ordering_anal.Orders.Menu.{
  MenuItem, MenuCategory, MenuResponse, fits_image_url, parse_display_order, parse_menu_item,
  parse_menu_category, parse_menu_response, fetch_menu,
}

-- A natural number that a double holds exactly.
abbrev pub IsDisplayOrder : Number → Type 0
IsDisplayOrder d = (n : ℕ) × (d ≡ nat n) × (n ≤ max_safe_integer)

pub record IsMenuItem (item : MenuItem) : Type 0 where
  pub id : matches uuid_pattern item.id ≡ true
  pub name : is_name item.name ≡ true
  pub image : fits_image_url item.image_url ≡ true
  pub price : IsAmount item.price_amount
  pub currency : matches currency_pattern item.currency ≡ true
  pub display_order : IsDisplayOrder item.display_order

pub record IsMenuCategory (category : MenuCategory) : Type 0 where
  pub id : matches uuid_pattern category.id ≡ true
  pub name : is_name category.name ≡ true
  pub display_order : IsDisplayOrder category.display_order
  pub some_items : 0 < length category.items
  pub items : All IsMenuItem category.items

natural_safe : (d : Number) → is_safe_integer d ≡ true → num_lt d 0 ≡ false → IsDisplayOrder d
unfolding is_safe_integer num_lt
natural_safe (nat n) h k = (n, refl, ground arith)
natural_safe d h k = absurd (ground arith)

parse_display_order_sound :
    (v : Value) (d : Number) → parse_display_order v ≡ ok d → IsDisplayOrder d
unfolding parse_display_order
parse_display_order_sound v d h = natural_safe d (ground arith) (ground arith)

parse_menu_item_sound :
    (v : Value) (item : MenuItem) → parse_menu_item v ≡ ok item → IsMenuItem item
unfolding parse_menu_item
parse_menu_item_sound (object fs) item h = record {
  id = ground arith;
  name = ground arith;
  image = ground arith;
  price =
      parse_positive_amount_sound (get (js "price_amount") fs) invalid_contract item.price_amount
        (ground arith);
  currency = ground arith;
  display_order =
      parse_display_order_sound (get (js "display_order") fs) item.display_order (ground arith);
}
parse_menu_item_sound _ item h = absurd (cc)

positive_same : (n m : ℕ) → (n == 0) ≡ false → m ≡ n → 0 < m
positive_same n m h e = ground (arith, ==_iff n 0)

parse_menu_category_sound :
    (v : Value) (c : MenuCategory) → parse_menu_category v ≡ ok c → IsMenuCategory c
unfolding parse_menu_category
parse_menu_category_sound (object fs) c h = elim (Option-cases (as_array (get (js "items") fs))) [
  | inl e ↦ absurd (ground arith)
  | inr (vs, e) ↦
      let parsed : map_ok parse_menu_item vs ≡ ok c.items = ground arith in
      let found : (length vs == 0) ≡ false = ground arith in
      let (each, same) =
        map_ok_sound IsMenuItem parse_menu_item parse_menu_item_sound vs c.items parsed in
      record {
        id = ground arith;
        name = ground arith;
        display_order =
            parse_display_order_sound (get (js "display_order") fs) c.display_order (ground arith);
        some_items = positive_same (length vs) (length c.items) found same;
        items = each;
      }
]
parse_menu_category_sound _ c h = absurd (cc)

parse_menu_response_sound :
    (v : Value) (menu : MenuResponse)
    → parse_menu_response v ≡ ok menu
    → All IsMenuCategory menu.categories
unfolding parse_menu_response
parse_menu_response_sound (object fs) menu h =
    elim (Option-cases (as_array (get (js "categories") fs))) [
      | inl e ↦ absurd (ground arith)
      | inr (vs, e) ↦
          let parsed : map_ok parse_menu_category vs ≡ ok menu.categories = ground arith in
          (map_ok_sound IsMenuCategory parse_menu_category parse_menu_category_sound vs
            menu.categories parsed).0
    ]
parse_menu_response_sound _ menu h = absurd (cc)

-- A fetched menu was asked for by one GET without a credential; each of its categories has a name, an
-- order and at least one dish, and each dish a UUID, a name, a currency and a positive safe price.
pub fetch_menu_sound :
    (w : World) (menu : MenuResponse)
    → (fetch_menu w).1 ≡ ok menu
    → All IsMenuCategory menu.categories
      × ((url : JsString) × (build_api_url w.env w.parse_url (js "/api/v1/menu") ≡ ok url)
          × ((fetch_menu w).0
              ≡ record {
                method = js "GET";
                url = url;
                headers = (js "Accept", js "application/json") ∷ [];
                body = none;
              }
                ∷ []))
unfolding fetch_menu request_json
fetch_menu_sound w menu h =
    let (v, fetched, parsed) =
      >>=-eq-ok (request_json w (js "/api/v1/menu") none).1 parse_menu_response h in
    let (url, target, log, _) =
      send_within_ok w (resolve_api_request_timeout_ms w.env none) (js "/api/v1/menu") _ settle_json
        v fetched in
    (parse_menu_response_sound v menu parsed, (url, target, log))
