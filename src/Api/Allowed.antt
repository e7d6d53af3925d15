-- ===== src/Api/Allowed.antt =====
-- Which requests carry a session's token.
use restaurant_ordering_anal.Base.{
  ℕ, ◌+◌, ◌≤◌, ◌≡◌, refl, true, false, List, [], ◌∷◌, ◌++◌, Option, none, some, JsString, js,
  str_eq, str_eq_sound, any, length, All, arith, ok, Bool-cases, Option-cases, or-cases, inl, inr,
  ◌⊎◌, if◌then◌else◌,
}
use restaurant_ordering_anal.Js.{Number, max_safe_integer}
use restaurant_ordering_anal.Js.Pattern.{
  is_space, split_on, strip_prefix, matches, order_number_pattern,
}
use restaurant_ordering_anal.Auth.Navigation.{includes}
use restaurant_ordering_anal.Api.Config.{Url, build_api_url, decimal}
use restaurant_ordering_anal.Api.Exchange.{Request, World}
use restaurant_ordering_anal.Api.Authenticated.{
  auth_me_path, account_orders_path, QueryKey, limit, offset, is_numeral, has_key, match_segment,
  are_segments, is_value_of, query_allowed, detail_allowed, is_allowed_account_orders_path,
  validate_authenticated_path, create_bearer_headers, authenticated_request,
}

pub strip_prefix_sound : (p s r : JsString) → strip_prefix p s ≡ some r → s ≡ p ++ r
unfolding strip_prefix
strip_prefix_sound [] s r h = ground arith
strip_prefix_sound (c ∷ p) [] r h = absurd (cc)
strip_prefix_sound (c ∷ p) (d ∷ s) r h = ground (arith, strip_prefix_sound p s r)

-- `limit=` with a number from 1 to 100, or `offset=` with a safe integer.
abbrev pub IsSegment : JsString → Type 0
IsSegment segment =
    (value : JsString) × (is_numeral value ≡ true)
    × (((segment ≡ js "limit=" ++ value) × (1 ≤ decimal value) × (decimal value ≤ 100))
        ⊎ ((segment ≡ js "offset=" ++ value) × (decimal value ≤ max_safe_integer)))

match_segment_sound :
    (segment : JsString) (key : QueryKey) (value : JsString)
    → match_segment segment ≡ some (key, value)
    → (is_numeral value ≡ true)
      × (((key ≡ limit) × (segment ≡ js "limit=" ++ value))
          ⊎ ((key ≡ offset) × (segment ≡ js "offset=" ++ value)))
unfolding match_segment
match_segment_sound segment key value h = (
  ground arith,
  ground (
    arith,
    strip_prefix_sound (js "limit=") segment value,
    strip_prefix_sound (js "offset=") segment value,
  ),
)

-- The keys that were not seen yet bound the segments that may follow.
abbrev room : List QueryKey → ℕ
room seen = (if has_key limit seen then 0 else 1) + (if has_key offset seen then 0 else 1)

room-cons :
    (key : QueryKey) (seen : List QueryKey)
    → has_key key seen ≡ false
    → room seen ≡ room (key ∷ seen) + 1
room-cons limit seen h = ground arith
room-cons offset seen h = ground arith

accepted-IsSegment :
    (segment : JsString) (key : QueryKey) (value : JsString)
    → is_numeral value ≡ true
    → (((key ≡ limit) × (segment ≡ js "limit=" ++ value))
        ⊎ ((key ≡ offset) × (segment ≡ js "offset=" ++ value)))
    → is_value_of key (decimal value) ≡ true
    → decimal value ≤ max_safe_integer
    → IsSegment segment
accepted-IsSegment segment limit value n (inl (e, s)) v m =
    (value, n, inl (s, ground arith, ground arith))
accepted-IsSegment segment offset value n (inl (e, s)) v m = absurd (cc)
accepted-IsSegment segment limit value n (inr (e, s)) v m = absurd (cc)
accepted-IsSegment segment offset value n (inr (e, s)) v m = (value, n, inr (s, m))

are_segments_sound :
    (seen : List QueryKey) (segments : List JsString)
    → are_segments seen segments ≡ true
    → All IsSegment segments × (length segments ≤ room seen)
unfolding are_segments
are_segments_sound seen [] h = (tt, omega arith)
are_segments_sound seen (s ∷ segments) h = elim (Option-cases (match_segment s)) [
  | inl e ↦ absurd (ground arith)
  | inr ((key, value), e) ↦
      let ih = are_segments_sound (key ∷ seen) segments (ground arith) in
      let (numeral, form) = match_segment_sound s key value e in
      (
        (accepted-IsSegment s key value numeral form (ground arith) (ground arith), ih.0),
        omega (arith, room-cons key seen (ground arith), ih.1),
      )
]

-- The paths that a session's token may be sent to.
pub data Allowed (path : JsString) : Type 0 where
  me : path ≡ auth_me_path → Allowed path
  orders : path ≡ account_orders_path → Allowed path
  detail :
      (number : JsString)
      → path ≡ js "/api/v1/account/orders/" ++ number
      → matches order_number_pattern number ≡ true
      → Allowed path
  page :
      (query : JsString)
      → path ≡ js "/api/v1/account/orders?" ++ query
      → All IsSegment (split_on b'&' query)
      → length (split_on b'&' query) ≤ 2
      → Allowed path

detail-Allowed :
    (path : JsString) (o : Option JsString)
    → strip_prefix (js "/api/v1/account/orders/") path ≡ o
    → detail_allowed o ≡ true
    → Allowed path
detail-Allowed path none e h = absurd (cc)
detail-Allowed path (some number) e h =
    detail number (strip_prefix_sound (js "/api/v1/account/orders/") path number e) h

page-Allowed :
    (path : JsString) (parsed : Url) (o : Option JsString)
    → strip_prefix (js "/api/v1/account/orders?") path ≡ o
    → query_allowed o parsed ≡ true
    → Allowed path
page-Allowed path parsed none e h = absurd (cc)
page-Allowed path parsed (some query) e h =
    let (segments, few) = are_segments_sound [] (split_on b'&' query) (ground arith) in
    page query (strip_prefix_sound (js "/api/v1/account/orders?") path query e) segments few

account_path-Allowed :
    (path : JsString) (parsed : Url)
    → is_allowed_account_orders_path path parsed ≡ true
    → Allowed path
unfolding is_allowed_account_orders_path
account_path-Allowed path parsed h = elim (or-cases _ _ h) [
  | inr k ↦ page-Allowed path parsed _ refl k
  | inl h1 ↦ elim (or-cases _ _ h1) [
    | inr k ↦ detail-Allowed path _ refl k
    | inl k ↦ orders (str_eq_sound path account_orders_path k)
  ]
]

validate-Allowed :
    (parse_path : JsString → Option Url) (path : JsString)
    → validate_authenticated_path parse_path path ≡ ok tt
    → Allowed path × (includes b'%' path ≡ false)
unfolding validate_authenticated_path
validate-Allowed parse_path path h = elim (Option-cases (parse_path path)) [
  | inl e ↦ absurd (ground arith)
  | inr (parsed, e) ↦ elim (Bool-cases (str_eq path auth_me_path)) [
    | inl k ↦ (me (str_eq_sound path auth_me_path k), ground arith)
    | inr k ↦ (account_path-Allowed path parsed (ground arith), ground arith)
  ]
]

-- A request that the authenticated client (`authenticatedRequestJson`) accepts is a GET to the configured
-- API at one of the allowed paths: the profile, the personal orders, one of them, or a page of them, whose
-- query has at most two parts, each a limit from 1 to 100 or an offset that is a safe integer; and the
-- token in its header is the given one and holds no white space.
pub authenticated_request_sound :
    (w : World) (parse_path : JsString → Option Url) (path token : JsString)
    (timeout_ms : Option Number) (r : Request)
    → authenticated_request w parse_path path token timeout_ms ≡ ok r
    → Allowed path
      × (r.method ≡ js "GET")
      × (build_api_url w.env w.parse_url path ≡ ok r.url)
      × (r.headers
          ≡ (js "Accept", js "application/json") ∷ (js "Authorization", js "Bearer " ++ token) ∷ [])
      × (any is_space token ≡ false)
unfolding authenticated_request create_bearer_headers
authenticated_request_sound w parse_path path token timeout_ms r h = (
  (validate-Allowed parse_path path (ground arith)).0,
  ground arith,
  ground arith,
  ground arith,
  ground arith,
)
