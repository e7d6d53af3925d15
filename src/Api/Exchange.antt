-- ===== src/Api/Exchange.antt =====
-- One request of frontend/src/api/client.ts (`requestJson`) and customerApi.ts (`requestPostJson`). What
-- the network and the timer do with it is an argument.
use restaurant_ordering_anal.Base.{
  ℕ, Bool, true, false, not, ◌&&◌, List, [], ◌∷◌, Option, none, some, JsString, js, if◌then◌else◌,
  leb, ◌==◌, ◌||◌, all, Outcome, ok, throw, ◌>>=◌, any, ◌++◌,
}
use restaurant_ordering_anal.Js.{Number, Value}
use restaurant_ordering_anal.Js.Pattern.{trim, is_empty, is_space}
use restaurant_ordering_anal.Api.Errors.{
  ApiErrorClass, plain, aborted, invalid_response, network, timeout, ApiRequestError, http_error,
  header_type_error,
}
use restaurant_ordering_anal.Api.Config.{Env, Url, build_api_url, resolve_api_request_timeout_ms}

pub record Request : Type 0 where
  pub method : JsString
  pub url : JsString
  pub headers : List (JsString × JsString)
  pub body : Option Value

-- `fetch` rejects, or resolves to a response: its status, its header `Retry-After`, and what `json()`
-- resolves to (`none` if that rejects).
pub data Reply : Type 0 where
  rejected : Reply
  responded : ℕ → Option JsString → Option Value → Reply

-- With it, whether the timer has fired and whether the signal is aborted when a failure is caught.
pub record Exchange : Type 0 where
  pub reply : Reply
  pub timeout_triggered : Bool
  pub signal_aborted : Bool

-- What surrounds a request: the build's configuration, `new URL`, and the network.
pub record World : Type 0 where
  pub env : Env
  pub parse_url : JsString → Option Url
  pub fetch : Request → Exchange

-- The requests that were sent, and the result.
abbrev pub Sent : Type 0 → Type 0
Sent A = List Request × Outcome ApiRequestError A

-- The tail of each `catch`: the failure is none of the client's own errors.
unfoldable pub failure : ApiErrorClass → Exchange → Bool → ApiRequestError
failure origin x response_received = record {
  origin = origin;
  kind =
      if x.timeout_triggered
      then timeout
      else if x.signal_aborted
      then aborted
      else if response_received
      then invalid_response
      else network;
  status = none;
  retry_after_seconds = none;
}

-- `response.ok`.
abbrev pub is_success : ℕ → Bool
is_success status = leb 200 status && leb status 299

abbrev pub body_or_failure : ApiErrorClass → Exchange → Option Value → Outcome ApiRequestError Value
body_or_failure origin x none = throw (failure origin x true)
body_or_failure origin x (some v) = ok v

abbrev json_reply : Exchange → Reply → Outcome ApiRequestError Value
json_reply x rejected = throw (failure plain x false)
json_reply x (responded status retry_after body) =
    if is_success status then body_or_failure plain x body else throw (http_error status)

-- From the answer of `fetch` to the result.
unfoldable pub settle_json : Exchange → Outcome ApiRequestError Value
settle_json x = json_reply x x.reply

module _ (w : World) where
  -- The timeout is resolved before the `try`, the URL inside it.
  abbrev pub send_to :
      {A : Type 0}
      → Outcome ApiRequestError JsString
      → (JsString → Request)
      → (Exchange → Outcome ApiRequestError A)
      → Sent A
  send_to (throw e) request settle = ([], throw e)
  send_to (ok url) request settle = (request url ∷ [], settle (w.fetch (request url)))

  abbrev pub send_within :
      {A : Type 0}
      → Outcome ApiRequestError Number
      → JsString
      → (JsString → Request)
      → (Exchange → Outcome ApiRequestError A)
      → Sent A
  send_within (throw e) path request settle = ([], throw e)
  send_within (ok timeout_ms) path request settle =
      send_to (build_api_url w.env w.parse_url path) request settle

  unfoldable pub request_json : JsString → Option Number → Sent Value
  request_json path timeout_ms =
      send_within (resolve_api_request_timeout_ms w.env timeout_ms) path
        (λ url. record {
          method = js "GET";
          url = url;
          headers = (js "Accept", js "application/json") ∷ [];
          body = none;
        })
        settle_json

  unfoldable pub request_post_json : JsString → Value → List (JsString × JsString) → Sent Value
  request_post_json path payload headers =
      send_within (resolve_api_request_timeout_ms w.env none) path
        (λ url. record { method = js "POST"; url = url; headers = headers; body = some payload })
        settle_json

-- `isCredential`, of a value known to be a string.
unfoldable pub is_credential : JsString → Bool
is_credential value = not (is_empty (trim value)) && not (any is_space value)

-- A code unit that the platform's `Headers` takes in a value: none above 0xFF, and not NUL, LF or CR.
abbrev pub is_header_character : ℕ → Bool
is_header_character c = leb c 0xff && not (c == 0 || c == 10 || c == 13)

-- Whether `headers.set` takes a value that neither begins nor ends with white space; it throws otherwise.
unfoldable pub is_header_value : JsString → Bool
is_header_value value = all is_header_character value

abbrev pub set_credential :
    JsString
    → JsString
    → Option JsString
    → ApiRequestError
    → List (JsString × JsString)
    → Outcome ApiRequestError (List (JsString × JsString))
set_credential name prefix none invalid headers = ok headers
set_credential name prefix (some token) invalid headers =
    if not (is_credential token)
    then throw invalid
    else if is_header_value (prefix ++ token)
    then ok (headers ++ ((name, prefix ++ token) ∷ []))
    else throw header_type_error

-- `appendOptionalCredentials`: the headers are a list, and the new ones come last.
unfoldable pub append_optional_credentials :
    List (JsString × JsString)
    → Option JsString
    → Option JsString
    → ApiRequestError
    → Outcome ApiRequestError (List (JsString × JsString))
append_optional_credentials headers access_token guest_access_token invalid = do
  with_access ← set_credential (js "Authorization") (js "Bearer ") access_token invalid headers
  set_credential (js "X-Order-Access-Token") [] guest_access_token invalid with_access
