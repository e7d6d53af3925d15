-- ===== src/Orders/Quoted.antt =====
-- What `quoteOrder` promises.
use restaurant_ordering_anal.Base.{
  ◌≡◌, refl, true, List, [], ◌∷◌, none, some, JsString, js, Outcome, ok, throw, arith, >>=-eq-ok,
}
use restaurant_ordering_anal.Js.{Value, object, field, end, get, Number}
use restaurant_ordering_anal.Js.Pattern.{matches, currency_pattern}
use restaurant_ordering_anal.Api.Errors.{ApiRequestError}
use restaurant_ordering_anal.Api.Config.{resolve_api_request_timeout_ms, build_api_url}
use restaurant_ordering_anal.Api.Exchange.{
  Request, World, request_post_json, settle_json, send_to, send_within, Exchange,
}
use restaurant_ordering_anal.Orders.Fields.{
  QuoteItemRequest, is_name, validate_quote_items, invalid_contract,
}
use restaurant_ordering_anal.Orders.Quote.{
  QuoteResponse, parse_quote_response, checked_quote, quote_order, encode_request_items,
  json_headers, and_then, after_check,
}
use restaurant_ordering_anal.Orders.Lines.{
  IsAmount, AreLines, Answers, AreRequestItems, parse_lines_sound, parse_positive_amount_sound,
  answers_sound, validate_quote_items_sound,
}

pub record IsQuote (quote : QuoteResponse) : Type 0 where
  pub currency : matches currency_pattern quote.currency ≡ true
  pub items : AreLines is_name quote.items
  pub subtotal : IsAmount quote.subtotal_amount
  pub total : IsAmount quote.total_amount

-- An accepted quote has a three-letter currency, 1 to 50 lines with distinct items, quantities from 1 to
-- 99, and positive safe integers for all its amounts.
pub parse_quote_response_sound :
    (v : Value) (quote : QuoteResponse) → parse_quote_response v ≡ ok quote → IsQuote quote
unfolding parse_quote_response
parse_quote_response_sound (object fs) quote h = record {
  currency = ground arith;
  items = parse_lines_sound is_name (get (js "items") fs) quote.items (ground arith);
  subtotal =
      parse_positive_amount_sound (get (js "subtotal_amount") fs) invalid_contract
        quote.subtotal_amount (ground arith);
  total =
      parse_positive_amount_sound (get (js "total_amount") fs) invalid_contract quote.total_amount
        (ground arith);
}
parse_quote_response_sound _ quote h = absurd (cc)

checked_quote_sound :
    (items : List QuoteItemRequest) (v : Value) (quote : QuoteResponse)
    → checked_quote items v ≡ ok quote
    → IsQuote quote × Answers quote.items items
unfolding checked_quote
checked_quote_sound items v quote h =
    let parsed : parse_quote_response v ≡ ok quote = ground arith in
    let good = parse_quote_response_sound v quote parsed in
    (good, answers_sound is_name quote.items items good.items.each (ground arith))

-- What stands in the log of a call that sends at most one request.
abbrev pub PostsOne : World → JsString → Value → List (JsString × JsString) → List Request → Type 0
PostsOne w path body headers requests =
    (url : JsString) × (build_api_url w.env w.parse_url path ≡ ok url)
    × (requests
        ≡ record { method = js "POST"; url = url; headers = headers; body = some body } ∷ [])

send_to_ok :
    {A : Type 0} (w : World) (target : Outcome ApiRequestError JsString)
    (request : JsString → Request) (settle : Exchange → Outcome ApiRequestError A) (a : A)
    → (send_to w target request settle).1 ≡ ok a
    → (url : JsString) × (target ≡ ok url)
      × ((send_to w target request settle).0 ≡ request url ∷ [])
      × (settle (w.fetch (request url)) ≡ ok a)
send_to_ok w (throw e) request settle a h = absurd (cc)
send_to_ok w (ok url) request settle a h = (url, refl, refl, h)

pub send_within_ok :
    {A : Type 0} (w : World) (limit : Outcome ApiRequestError Number) (path : JsString)
    (request : JsString → Request) (settle : Exchange → Outcome ApiRequestError A) (a : A)
    → (send_within w limit path request settle).1 ≡ ok a
    → (url : JsString) × (build_api_url w.env w.parse_url path ≡ ok url)
      × ((send_within w limit path request settle).0 ≡ request url ∷ [])
      × (settle (w.fetch (request url)) ≡ ok a)
send_within_ok w (throw e) path request settle a h = absurd (cc)
send_within_ok w (ok t) path request settle a h =
    send_to_ok w (build_api_url w.env w.parse_url path) request settle a h

pub post_ok :
    (w : World) (path : JsString) (body : Value) (headers : List (JsString × JsString)) (v : Value)
    → (request_post_json w path body headers).1 ≡ ok v
    → PostsOne w path body headers (request_post_json w path body headers).0
unfolding request_post_json
post_ok w path body headers v h =
    let (url, target, log, _) =
      send_within_ok w (resolve_api_request_timeout_ms w.env none) path _ settle_json v h in
    (url, target, log)

-- A call that checks, posts and parses has succeeded only if all three have.
pub posted_ok :
    {A B : Type 0} (w : World) (check : Outcome ApiRequestError A) (path : JsString) (body : Value)
    (headers : A → List (JsString × JsString)) (parse : Value → Outcome ApiRequestError B) (b : B)
    → (after_check check (λ a. and_then (request_post_json w path body (headers a)) parse)).1 ≡ ok b
    → (a : A) × (v : Value) × (check ≡ ok a)
      × PostsOne w path body
          (headers a)
          (after_check check (λ a. and_then (request_post_json w path body (headers a)) parse)).0
      × (parse v ≡ ok b)
posted_ok w (throw e) path body headers parse b h = absurd (cc)
posted_ok w (ok a) path body headers parse b h =
    let (v, sent, parsed) = >>=-eq-ok (request_post_json w path body (headers a)).1 parse h in
    (a, v, refl, post_ok w path body (headers a) v sent, parsed)

-- A successful quote was asked for a valid list of items by one POST of exactly that list, is well
-- formed, and answers the list line by line.
pub quote_order_sound :
    (w : World) (items : List QuoteItemRequest) (quote : QuoteResponse)
    → (quote_order w items).1 ≡ ok quote
    → AreRequestItems items
      × PostsOne w
          (js "/api/v1/orders/quote")
          (object (field (js "items") (encode_request_items items) end))
          json_headers
          (quote_order w items).0
      × IsQuote quote
      × Answers quote.items items
unfolding quote_order
quote_order_sound w items quote h =
    let (_, v, valid, posted, parsed) =
      posted_ok w (validate_quote_items items) (js "/api/v1/orders/quote")
        (object (field (js "items") (encode_request_items items) end)) (λ _. json_headers)
        (checked_quote items) quote h in
    let (good, answer) = checked_quote_sound items v quote parsed in
    (validate_quote_items_sound items valid, posted, good, answer)
