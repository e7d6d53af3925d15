-- ===== src/Js/Browser.antt =====
-- `Storage` (session storage) and `JSON`. Both belong to the browser.
use restaurant_ordering_anal.Base.{
  ◌≡◌, Bool, true, Option, none, some, JsString, str_eq, if◌then◌else◌, Outcome, ok, throw,
}
use restaurant_ordering_anal.Js.Values.{Value, is_json}

-- The texts of `JSON`: `parse` fails by `none` (a `SyntaxError`), and reads back what `stringify` wrote.
pub record Json : Type 1 where
  pub Text : Type 0
  pub parse : Text → Option Value
  pub stringify : Value → Text
  pub parse-stringify : (v : Value) → is_json v ≡ true → parse (stringify v) ≡ some v

-- What a storage call throws: access is denied, or the quota is exceeded.
pub data Fault : Type 0 where
  fault : Fault

-- Session storage: its entries, and which calls the browser grants at present.
pub record Storage (Text : Type 0) : Type 0 where
  pub can_read : Bool
  pub can_write : Bool
  pub can_remove : Bool
  pub entry : JsString → Option Text

module _ {Text : Type 0} where
  abbrev pub put : JsString → Option Text → Storage Text → Storage Text
  put k t st = record st { entry = λ j. if str_eq k j then t else st.entry j }

  unfoldable pub get_item : Storage Text → JsString → Outcome Fault (Option Text)
  get_item st k = if st.can_read then ok (st.entry k) else throw fault

  unfoldable pub set_item : Storage Text → JsString → Text → Outcome Fault (Storage Text)
  set_item st k t = if st.can_write then ok (put k (some t) st) else throw fault

  unfoldable pub remove_item : Storage Text → JsString → Outcome Fault (Storage Text)
  remove_item st k = if st.can_remove then ok (put k none st) else throw fault
