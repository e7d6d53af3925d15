-- ===== src/Api/Configured.antt =====
-- What the configuration of a build can lead to.
use restaurant_ordering_anal.Api.Origins.{IsHttpsText, is_public_https_origin_sound}
use restaurant_ordering_anal.Api.Exchange.{
  World, Request, Exchange, send_to, send_within, request_json, request_post_json, settle_json,
}
use restaurant_ordering_anal.Api.Errors.{ApiRequestError}
use restaurant_ordering_anal.Base.{
  ℕ, ◌*◌, ◌+◌, ◌≤◌, ◌<◌, ◌≡◌, true, false, [], ◌∷◌, Option, none, some, JsString, js, str_eq_sound,
  arith, ok, Bool-cases, inl, inr, Option-cases, ◌-◌, ◌≢◌, List, ◌++◌, refl, str_eq, str_eq_refl,
  All, Outcome, throw, ◌∙◌,
}
use restaurant_ordering_anal.Js.{Number, nat, num_gt, positive_safe, Value}
use restaurant_ordering_anal.Js.Pattern.{is_empty}
use restaurant_ordering_anal.Api.Config.{
  Env, Url, trimmed, is_loopback_hostname, drop_slashes, requires_public_https_base,
  read_api_base_url, decimal, decimal_from, is_positive_numeral, resolve_api_request_timeout_ms,
  max_request_timeout_ms, build_api_url,
}

decimal_from_pos : (acc : ℕ) (s : JsString) → 0 < acc → 0 < decimal_from acc s
unfolding decimal_from
decimal_from_pos acc [] h = h
decimal_from_pos acc (c ∷ s) h = decimal_from_pos (acc * 10 + (c - b'0')) s (omega arith)

decimal_pos : (s : JsString) → is_positive_numeral s ≡ true → 0 < decimal s
unfolding decimal decimal_from is_positive_numeral
decimal_pos [] h = absurd (cc)
decimal_pos (c ∷ s) h = decimal_from_pos (0 * 10 + (c - b'0')) s (ground arith)

override_bounds :
    (env : Env) (x t : Number)
    → resolve_api_request_timeout_ms env (some x) ≡ ok t
    → (n : ℕ) × (t ≡ nat n) × (0 < n) × (n ≤ max_request_timeout_ms)
unfolding resolve_api_request_timeout_ms num_gt
override_bounds env x t h =
    let (n, e, lo, safe) = positive_safe x (ground arith) (ground arith) in
    (n, ground arith, lo, ground arith)

-- Every timeout that a request runs with is a whole number of milliseconds from 1 to 90000.
pub resolve_api_request_timeout_ms_bounds :
    (env : Env) (override : Option Number) (t : Number)
    → resolve_api_request_timeout_ms env override ≡ ok t
    → (n : ℕ) × (t ≡ nat n) × (0 < n) × (n ≤ max_request_timeout_ms)
unfolding resolve_api_request_timeout_ms
resolve_api_request_timeout_ms_bounds env (some x) t h = override_bounds env x t h
resolve_api_request_timeout_ms_bounds env none t h =
    elim (Bool-cases (is_empty (trimmed env.vite_api_timeout_ms))) [
      | inl e ↦ (10_000, ground arith, omega arith, omega arith)
      | inr e ↦ (
        decimal (trimmed env.vite_api_timeout_ms),
        ground arith,
        ground (arith, decimal_pos (trimmed env.vite_api_timeout_ms)),
        ground arith,
      )
    ]

-- What a deployed build uses as its API: the origin of the configured URL, whose text is `https://` and
-- a host, with a port or without, and at most a slash after it; not this machine, no credentials, query or
-- fragment.
pub record IsPublicBase (configured : JsString) (url : Url) (base : JsString) : Type 0 where
  pub text : IsHttpsText configured
  pub base_is_origin : base ≡ url.origin
  pub protocol : url.protocol ≡ js "https:"
  pub remote :
      (url.hostname ≢ js "localhost")
      × (url.hostname ≢ js "127.0.0.1")
      × (url.hostname ≢ js "[::1]")
  pub username : url.username ≡ []
  pub password : url.password ≡ []
  pub search : url.search ≡ []
  pub hash : url.hash ≡ []

empty : (s : JsString) → is_empty s ≡ true → s ≡ []
empty [] h = refl
empty (c ∷ s) h = absurd (cc)

differs : (s t : JsString) → str_eq s t ≡ false → s ≢ t
differs s t h e = absurd (ground (arith, str_eq_refl t))

remote_hostname :
    (s : JsString)
    → is_loopback_hostname s ≡ false
    → (s ≢ js "localhost") × (s ≢ js "127.0.0.1") × (s ≢ js "[::1]")
unfolding is_loopback_hostname
remote_hostname s h = (
  differs s (js "localhost") (ground arith),
  differs s (js "127.0.0.1") (ground arith),
  differs s (js "[::1]") (ground arith),
)

read_api_base_url_public :
    (env : Env) (parse_url : JsString → Option Url) (base : JsString)
    → requires_public_https_base env ≡ true
    → read_api_base_url env parse_url ≡ ok base
    → (url : Url) × (parse_url (drop_slashes (trimmed env.vite_api_base_url)) ≡ some url)
      × IsPublicBase (trimmed env.vite_api_base_url) url base
unfolding read_api_base_url
read_api_base_url_public env parse_url base req h =
    elim (Option-cases (parse_url (drop_slashes (trimmed env.vite_api_base_url)))) [
      | inl e ↦ absurd (ground arith)
      | inr (url, e) ↦ (
        url,
        e,
        record {
          text = is_public_https_origin_sound (trimmed env.vite_api_base_url) (ground arith);
          base_is_origin = ground arith;
          protocol = str_eq_sound url.protocol (js "https:") (ground arith);
          remote = remote_hostname url.hostname (ground arith);
          username = empty url.username (ground arith);
          password = empty url.password (ground arith);
          search = empty url.search (ground arith);
          hash = empty url.hash (ground arith);
        },
      )
    ]

-- A request to a path of the public base.
abbrev pub GoesPublic : World → JsString → Request → Type 0
GoesPublic w path r =
    (url : Url) × (base : JsString) × (w.parse_url (drop_slashes (trimmed w.env.vite_api_base_url))
      ≡ some url)
    × IsPublicBase (trimmed w.env.vite_api_base_url) url base
    × (r.url ≡ base ++ path)

build_api_url_public :
    (w : World) (path target : JsString) (r : Request)
    → requires_public_https_base w.env ≡ true
    → build_api_url w.env w.parse_url path ≡ ok target
    → r.url ≡ target
    → GoesPublic w path r
unfolding build_api_url
build_api_url_public w path target r req h e =
    let read : (base : JsString) × (read_api_base_url w.env w.parse_url ≡ ok base)
        × (target ≡ base ++ path) =
      ground arith in
    let (url, parsed, public) = read_api_base_url_public w.env w.parse_url read.0 req read.1 in
    (url, read.0, parsed, public, e ∙ read.2)

module _ (w : World) (req : requires_public_https_base w.env ≡ true) where
  send_to_public :
      {A : Type 0} (path : JsString) (target : Outcome ApiRequestError JsString)
      (request : JsString → Request) (settle : Exchange → Outcome ApiRequestError A)
      → build_api_url w.env w.parse_url path ≡ target
      → ((url : JsString) → (request url).url ≡ url)
      → All (GoesPublic w path) (send_to w target request settle).0
  send_to_public path (throw x) request settle e k = tt
  send_to_public path (ok url) request settle e k =
      (build_api_url_public w path url (request url) req e (k url), tt)

  send_within_public :
      {A : Type 0} (timeout : Outcome ApiRequestError Number) (path : JsString)
      (request : JsString → Request) (settle : Exchange → Outcome ApiRequestError A)
      → ((url : JsString) → (request url).url ≡ url)
      → All (GoesPublic w path) (send_within w timeout path request settle).0
  send_within_public (throw x) path request settle k = tt
  send_within_public (ok t) path request settle k = send_to_public path _ request settle refl k

-- Whatever a build for neither local development nor end-to-end tests is configured with,
-- `requestJson` and `requestPostJson` send a request only to the path asked for at a public base: the
-- origin of the configured URL, over `https:`, on a host other than `localhost`, `127.0.0.1` and
-- `[::1]`, without credentials, query or fragment, and with a configured text that is `https://` in
-- any case and a host, free of `/`, `?`, `#`, `@`, backslash and white space, but for a slash at its
-- very end. Where the configuration is none of that, nothing is sent.
pub requests_public :
    (w : World) (path : JsString) (timeout_ms : Option Number)
    (headers : List (JsString × JsString)) (payload : Value)
    → requires_public_https_base w.env ≡ true
    → All (GoesPublic w path) (request_json w path timeout_ms).0
      × All (GoesPublic w path) (request_post_json w path payload headers).0
unfolding request_json request_post_json
requests_public w path timeout_ms headers payload req = (
  send_within_public w req (resolve_api_request_timeout_ms w.env timeout_ms) path _ settle_json
      (λ url. refl),
  send_within_public w req (resolve_api_request_timeout_ms w.env none) path _ settle_json
      (λ url. refl),
)
