-- ===== src/Session/Replies.antt =====
-- The tokens that the API may answer with.
use restaurant_ordering_anal.Base.{
  true, Option, none, some, JsString, ◌≡◌, arith, Outcome, ok, throw,
}
use restaurant_ordering_anal.Auth.Tokens.{is_access_token}
use restaurant_ordering_anal.Api.Errors.{ApiRequestError}
use restaurant_ordering_anal.Api.Exchange.{World, Exchange, Request, Reply, rejected, responded}
use restaurant_ordering_anal.Js.{Value, Number}
use restaurant_ordering_anal.Session.Users.{
  AuthTokenResponse, TokenRequest, parse_auth_token_response, settle_auth_token, token_reply,
  send_token_request, request_within, request_auth_token,
}

parse_auth_token_response-kept :
    (v : Value) (r : AuthTokenResponse)
    → parse_auth_token_response v ≡ ok r
    → is_access_token r.access_token ≡ true
unfolding parse_auth_token_response
parse_auth_token_response-kept v r h = ground arith

token_reply-kept :
    (x : Exchange) (reply : Reply) (r : AuthTokenResponse)
    → token_reply x reply ≡ ok r
    → is_access_token r.access_token ≡ true
token_reply-kept x rejected r h = absurd (cc)
token_reply-kept x (responded status retry_after none) r h = absurd (ground arith)
token_reply-kept x (responded status retry_after (some v)) r h =
    parse_auth_token_response-kept v r (ground arith)

send_token_request-kept :
    (w : World) (url : Outcome ApiRequestError JsString) (request : JsString → Request)
    (r : AuthTokenResponse)
    → (send_token_request w url request).1 ≡ ok r
    → is_access_token r.access_token ≡ true
unfolding settle_auth_token
send_token_request-kept w (throw e) request r h = absurd (cc)
send_token_request-kept w (ok url) request r h =
    token_reply-kept (w.fetch (request url)) (w.fetch (request url)).reply r h

request_within-kept :
    (w : World) (limit : Outcome ApiRequestError Number) (path : JsString) (body : Option Value)
    (r : AuthTokenResponse)
    → (request_within w limit path body).1 ≡ ok r
    → is_access_token r.access_token ≡ true
request_within-kept w (throw e) path body r h = absurd (cc)
request_within-kept w (ok n) path body r h = send_token_request-kept w _ _ r h

-- A token that comes from the API is not blank and holds no white space.
pub request_auth_token-kept :
    (w : World) (lower : JsString → JsString) (request : TokenRequest) (r : AuthTokenResponse)
    → (request_auth_token w lower request).1 ≡ ok r
    → is_access_token r.access_token ≡ true
unfolding request_auth_token
request_auth_token-kept w lower request r h = request_within-kept w _ _ _ r h
