-- ===== src/Fixtures.antt =====
-- Concrete browsers, storages and carts, on which the tests of the components run.
use restaurant_ordering_anal.Base.{refl, true, false, [], ◌∷◌, Option, none, some, JsString, js}
use restaurant_ordering_anal.Js.{nat, Value, Json, Storage}
use restaurant_ordering_anal.Cart.Reducer.{CartState}
use restaurant_ordering_anal.Api.Config.{Env, Url}
use restaurant_ordering_anal.Api.Exchange.{Reply, World}

-- A codec whose texts are the values themselves.
abbrev pub plain_json : Json
plain_json = record {
  Text = Value;
  parse = some;
  stringify = λ v. v;
  parse-stringify = λ v h. refl;
}

-- A storage that grants everything, with the same entry under every key.
abbrev pub tab : Option Value → Storage Value
tab entry = record { can_read = true; can_write = true; can_remove = true; entry = λ k. entry }

-- One whose owner has denied every call.
abbrev pub denied_tab : Storage Value
denied_tab = record { can_read = false; can_write = false; can_remove = false; entry = λ k. none }

abbrev pub soup : JsString
soup = js "11111111-1111-4111-8111-111111111111"

abbrev pub bread : JsString
bread = js "22222222-2222-4222-8222-222222222222"

abbrev pub cart : CartState
cart = record {
  items =
      record { menu_item_id = soup; quantity = nat 2 }
      ∷ record { menu_item_id = bread; quantity = nat 1 }
      ∷ [];
}

abbrev pub order_number : JsString
order_number = js "ROA-23456789ABCD"

-- A development build, whose API is on its own origin, against a network that answers every request with the
-- same reply.
abbrev pub development : Env
development = record {
  prod = false;
  mode = js "development";
  vite_api_base_url = none;
  vite_api_timeout_ms = none;
}

abbrev pub secure_url : Url
secure_url = record {
  protocol = js "https:";
  hostname = js "example.com";
  username = [];
  password = [];
  pathname = js "/";
  search = [];
  hash = [];
  origin = js "https://example.com";
}

abbrev pub answering : Reply → World
answering reply = record {
  env = development;
  parse_url = λ s. some secure_url;
  fetch = λ request. record { reply = reply; timeout_triggered = false; signal_aborted = false };
}
