-- ===== src/Api/Config.antt =====
-- frontend/src/api/client.ts: the base URL and the timeout of a request.
use restaurant_ordering_anal.Base.{
  ℕ, ◌+◌, ◌*◌, ◌-◌, Bool, true, false, not, ◌&&◌, ◌||◌, [], ◌∷◌, ◌++◌, Option, none, some, JsString,
  js, if◌then◌else◌, str_eq, ◌==◌, leb, ltb, all, Outcome, ok, throw, ◌>>=◌, ◌>>◌,
}
use restaurant_ordering_anal.Js.{Number, nat, is_safe_integer, num_le, num_gt, max_safe_integer}
use restaurant_ordering_anal.Js.Pattern.{digit, is_space, trim, between, is_empty}
use restaurant_ordering_anal.Auth.Navigation.{starts_with}
use restaurant_ordering_anal.Api.Errors.{
  ApiRequestError, invalid_runtime_configuration, api_error, invalid_response,
}

abbrev pub default_request_timeout_ms : ℕ
default_request_timeout_ms = 10_000

abbrev pub max_request_timeout_ms : ℕ
max_request_timeout_ms = 90_000

-- `import.meta.env`.
pub record Env : Type 0 where
  pub prod : Bool
  pub mode : JsString
  pub vite_api_base_url : Option JsString
  pub vite_api_timeout_ms : Option JsString

-- The parts of a parsed `URL` that the code reads.
pub record Url : Type 0 where
  pub protocol : JsString
  pub hostname : JsString
  pub username : JsString
  pub password : JsString
  pub pathname : JsString
  pub search : JsString
  pub hash : JsString
  pub origin : JsString

abbrev pub guard_ok : Bool → ApiRequestError → Outcome ApiRequestError (Unit {0})
guard_ok true e = ok tt
guard_ok false e = throw e

-- `value?.trim() ?? ''`.
abbrev pub trimmed : Option JsString → JsString
trimmed none = []
trimmed (some s) = trim s

unfoldable pub is_loopback_hostname : JsString → Bool
is_loopback_hostname hostname =
    str_eq hostname (js "localhost")
    || str_eq hostname (js "127.0.0.1")
    || str_eq hostname (js "[::1]")

-- A literal character under the flags `i` and `u`, under which the long s is an s too.
abbrev pub letter : ℕ → ℕ → Bool
letter l c = c == l || (between b'a' b'z' l && c + 32 == l) || (l == b's' && c == 0x17f)

-- What follows a literal text.
unfoldable pub after_literal : JsString → JsString → Option JsString
after_literal [] s = some s
after_literal (l ∷ ls) [] = none
after_literal (l ∷ ls) (c ∷ s) = if letter l c then after_literal ls s else none

unfoldable pub after_https : JsString → Option JsString
unfolding after_literal
after_https s = after_literal (js "https://") s

-- `/?$`, `\d+/?$` after at least one digit, and `(?::\d+)?/?$`.
abbrev pub at_end : JsString → Bool
at_end [] = true
at_end (c ∷ []) = c == b'/'
at_end _ = false

unfoldable pub digits_then_end : JsString → Bool
digits_then_end [] = true
digits_then_end (c ∷ s) = if digit c then digits_then_end s else at_end (c ∷ s)

abbrev pub port_then_end : JsString → Bool
port_then_end (c ∷ d ∷ s) = (c == b':' && digit d && digits_then_end s) || at_end (c ∷ d ∷ s)
port_then_end s = at_end s

-- `[/?#@\\\s]`.
abbrev is_delimiter : ℕ → Bool
is_delimiter c = c == b'/' || c == b'?' || c == b'#' || c == b'@' || c == b'\\' || is_space c

-- `[^:/?#@\\\s]*` and what follows the longest such run: no shorter one can be followed by a port.
unfoldable pub host_then_end : JsString → Bool
host_then_end [] = true
host_then_end (c ∷ s) =
    if c == b':' || is_delimiter c then port_then_end (c ∷ s) else host_then_end s

-- `[^\]/?#@\\\s]*\]` and what follows.
unfoldable pub bracket_then_end : JsString → Bool
bracket_then_end [] = false
bracket_then_end (c ∷ s) =
    if c == b']' then port_then_end s else not (is_delimiter c) && bracket_then_end s

-- Each of the two forms has at least one character in its run.
abbrev pub is_host : JsString → Bool
is_host [] = false
is_host (c ∷ []) = not (c == b':' || is_delimiter c)
is_host (c ∷ d ∷ s) =
    (c == b'[' && not (d == b']' || is_delimiter d) && bracket_then_end s)
    || (not (c == b':' || is_delimiter c) && host_then_end (d ∷ s))

abbrev host_of : Option JsString → Bool
host_of none = false
host_of (some rest) = is_host rest

-- `PUBLIC_HTTPS_ORIGIN_PATTERN.test(value)`.
unfoldable pub is_public_https_origin : JsString → Bool
unfolding after_https digits_then_end host_then_end bracket_then_end
is_public_https_origin value = host_of (after_https value)

abbrev keep_unless_slash : ℕ → JsString → JsString
keep_unless_slash c [] = if c == b'/' then [] else c ∷ []
keep_unless_slash c (d ∷ s) = c ∷ d ∷ s

-- `value.replace(/\/+$/, '')`.
unfoldable pub drop_slashes : JsString → JsString
drop_slashes [] = []
drop_slashes (c ∷ s) = keep_unless_slash c (drop_slashes s)

abbrev or_invalid : Option Url → Outcome ApiRequestError Url
or_invalid none = throw invalid_runtime_configuration
or_invalid (some url) = ok url

module _ (env : Env) where
  abbrev pub is_local_development_build : Bool
  is_local_development_build =
      not env.prod && (str_eq env.mode (js "development") || str_eq env.mode (js "test"))

  abbrev pub is_e2e_build : Bool
  is_e2e_build = env.prod && str_eq env.mode (js "e2e")

  abbrev pub requires_public_https_base : Bool
  requires_public_https_base = not is_local_development_build && not is_e2e_build

  abbrev pub is_supported_protocol : Url → Bool
  is_supported_protocol url =
      (str_eq url.protocol (js "https:")
        && not (requires_public_https_base && is_loopback_hostname url.hostname))
      || (is_local_development_build
          && str_eq url.protocol (js "http:")
          && is_loopback_hostname url.hostname)

  -- `new URL(text)` is the argument `parse_url`; it throws by `none`.
  configured_base_url : (JsString → Option Url) → JsString → Outcome ApiRequestError JsString
  configured_base_url parse_url configured = do
    guard_ok (not is_e2e_build) invalid_runtime_configuration
    guard_ok (not (requires_public_https_base && not (is_public_https_origin configured)))
        invalid_runtime_configuration
    url ← or_invalid (parse_url (drop_slashes configured))
    guard_ok
        (is_supported_protocol url
          && is_empty url.username
          && is_empty url.password
          && str_eq url.pathname (js "/")
          && is_empty url.search
          && is_empty url.hash)
        invalid_runtime_configuration
    ok url.origin

  unfoldable pub read_api_base_url : (JsString → Option Url) → Outcome ApiRequestError JsString
  unfolding configured_base_url
  read_api_base_url parse_url =
      let configured = trimmed env.vite_api_base_url in
      if is_empty configured
      then (if requires_public_https_base then throw invalid_runtime_configuration else ok [])
      else configured_base_url parse_url configured

  unfoldable pub build_api_url :
      (JsString → Option Url) → JsString → Outcome ApiRequestError JsString
  build_api_url parse_url path = do
    guard_ok (starts_with (js "/api/") path) (api_error invalid_response)
    base_url ← read_api_base_url parse_url
    ok (base_url ++ path)

-- `Number(text)` for a text of decimal digits.
unfoldable pub decimal_from : ℕ → JsString → ℕ
decimal_from acc [] = acc
decimal_from acc (c ∷ s) = decimal_from (acc * 10 + (c - b'0')) s

unfoldable pub decimal : JsString → ℕ
unfolding decimal_from
decimal s = decimal_from 0 s

-- `/^[1-9]\d*$/`.
unfoldable pub is_positive_numeral : JsString → Bool
is_positive_numeral [] = false
is_positive_numeral (c ∷ s) = between b'1' b'9' c && all digit s

abbrev checked_override : Number → Outcome ApiRequestError Number
checked_override timeout_ms =
    if not (is_safe_integer timeout_ms)
      || num_le timeout_ms 0
      || num_gt timeout_ms max_request_timeout_ms
    then throw invalid_runtime_configuration
    else ok timeout_ms

configured_timeout : JsString → Outcome ApiRequestError Number
configured_timeout configured =
    if is_empty configured
    then ok (nat default_request_timeout_ms)
    else if not (is_positive_numeral configured)
    then throw invalid_runtime_configuration
    else (if not (leb (decimal configured) max_safe_integer)
          || ltb max_request_timeout_ms (decimal configured)
        then throw invalid_runtime_configuration
        else ok (nat (decimal configured)))

unfoldable pub resolve_api_request_timeout_ms : Env → Option Number → Outcome ApiRequestError Number
unfolding configured_timeout
resolve_api_request_timeout_ms env (some timeout_ms) = checked_override timeout_ms
resolve_api_request_timeout_ms env none = configured_timeout (trimmed env.vite_api_timeout_ms)
