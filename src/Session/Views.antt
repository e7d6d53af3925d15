-- ===== src/Session/Views.antt =====
-- The session of frontend/src/features/auth/AuthContext.tsx as its users see it, and how that may change.
use restaurant_ordering_anal.Base.{
  ℕ, Bool, true, false, List, Option, none, some, JsString, ◌==◌, ◌≡◌, ◌≢◌, arith, refl, inl, inr,
  Bool-cases, if-ind, Outcome, ok, throw, subst, ap, ◌&&◌, ◌∙◌,
}
use restaurant_ordering_anal.Js.{Json}
use restaurant_ordering_anal.Api.Errors.{ApiRequestError}
use restaurant_ordering_anal.Api.Config.{Url}
use restaurant_ordering_anal.Api.Exchange.{World}
use restaurant_ordering_anal.Session.Users.{
  AuthUser, AuthTokenResponse, TokenRequest, fetch_current_user, request_auth_token,
}
use restaurant_ordering_anal.Session.State.{
  AuthPhase, signed_in, checking_session, temporarily_unavailable, signed_out, TokenSource, Shown,
  Caller, nobody, refreshing, Job, requesting, validating, Task, Provider, take_task,
}
use restaurant_ordering_anal.Session.Outcomes.{
  is_auth_error, is_kind_aborted, is_http_status, ValidationResult,
}
use restaurant_ordering_anal.Session.Provider.{
  is_token, validate_token_of, validate_current_session, retry_token_of, refresh_token_of,
  clear_session, invalidate_session_if_current, start_effect, clean_up, start_validation,
  begin_request, establish_credentials, retry_session, refresh_current_user, accept_user,
  accept_token, reject_token, suspend_session, fail_validation, Call, settle_current_validation,
  settle_current_request,
}
use restaurant_ordering_anal.Session.Steps.{
  Event, mounted, unmounted, validation_due, retry, refresh, logout, invalidate, sign_in, settled,
  with_signal, settle_job, settle_taken, step, answered,
}
use restaurant_ordering_anal.Session.Flight.{current_job, take_task-cases}
use restaurant_ordering_anal.Session.Sound.{is_given, is_signed_out, IsShown, IsSound, IsCurrent}
use restaurant_ordering_anal.Session.Reached.{settle_stale}

pub data View : Type 0 where
  out checking unavailable : View
  in_as : JsString → AuthUser → View

abbrev pub view_of : AuthPhase → Option JsString → Option AuthUser → View
view_of signed_in (some token) (some user) = in_as token user
view_of signed_in _ _ = out
view_of checking_session token user = checking
view_of temporarily_unavailable token user = unavailable
view_of signed_out token user = out

abbrev pub view : Shown → View
view s = view_of s.phase s.access_token s.user

module _ (lower : JsString → JsString) (parse_path : JsString → Option Url) where
  -- The ways in which one event may leave or change what is seen: a user is seen only by an answer that
  -- names that user for the token.
  pub data Moves : Event → View → View → Type 0 where
    stay : (e : Event) (v : View) → Moves e v v
    log_out : (v : View) → Moves logout v out
    invalidated : (token : JsString) (g : ℕ) (v : View) → Moves (invalidate token g) v out
    recheck : (v : View) → v ≢ out → Moves retry v checking
    admit :
        (i : ℕ) (w : World) (v : View) (request : TokenRequest) (stop : Bool)
        (r : AuthTokenResponse)
        → (request_auth_token (with_signal stop w) lower request).1 ≡ ok r
        → Moves (settled i w) v checking
    confirm :
        (i : ℕ) (w : World) (v : View) (token : JsString) (stop : Bool) (user : AuthUser)
        → v ≢ out
        → (fetch_current_user (with_signal stop w) parse_path token).1 ≡ ok user
        → Moves (settled i w) v (in_as token user)
    refuse :
        (i : ℕ) (w : World) (v : View) (token : JsString) (stop : Bool) (e : ApiRequestError)
        → (fetch_current_user (with_signal stop w) parse_path token).1 ≡ throw e
        → is_http_status 401 e ≡ true
        → Moves (settled i w) v out
    suspend :
        (i : ℕ) (w : World) (v : View) (token : JsString) (stop : Bool) (e : ApiRequestError)
        → v ≢ out
        → (fetch_current_user (with_signal stop w) parse_path token).1 ≡ throw e
        → is_http_status 401 e ≡ false
        → Moves (settled i w) v unavailable

view_out : (s : Shown) → is_signed_out s.phase ≡ true → view s ≡ out
view_out s h = ground arith

module _ {Text : Type 0} where
  -- A session without a token is seen as signed out, and one with a token is not.
  tokenless : (p : Provider Text) → IsShown p → is_given p.token ≡ false → view p.shown ≡ out
  tokenless p s h = view_out p.shown (ground (arith, s))

  with_token : (p : Provider Text) → IsShown p → is_given p.token ≡ true → view p.shown ≢ out
  with_token p s h e = ground (arith, s)

module _ (json : Json) (lower : JsString → JsString) (parse_path : JsString → Option Url) where
  open json use {Text}

  -- Nobody is shown who was not shown before.
  abbrev Seen : Event → Provider Text → Provider Text → Type 0
  Seen e p q = Moves lower parse_path e (view p.shown) (view q.shown)

  nobody-Seen :
      (e : Event) (p : Provider Text)
      → IsShown p
      → is_given p.token ≡ false
      → Moves lower parse_path e (view p.shown) out
  nobody-Seen e p s h = rw (tokenless p s h) (stay e out)

  validate_token_of-Seen :
      (e : Event) (caller : Caller) (token : Option JsString) (source : Option TokenSource)
      (p : Provider Text)
      → IsShown p
      → p.token ≡ token
      → p.source ≡ source
      → Seen e p (validate_token_of json caller token source p).0
  unfolding begin_request
  validate_token_of-Seen e caller (some t) (some s) p h k l = stay e (view p.shown)
  validate_token_of-Seen e caller none source p h k l = nobody-Seen e p h (ap is_given k)
  validate_token_of-Seen e caller (some t) none p h k l = absurd (ground (arith, h.source))

  retry_token_of-Seen :
      (token : Option JsString) (source : Option TokenSource) (p : Provider Text)
      → IsShown p
      → p.token ≡ token
      → p.source ≡ source
      → Seen retry p (retry_token_of json token source p).0
  unfolding begin_request validate_current_session
  retry_token_of-Seen (some t) (some s) p h k l =
      rw (k, l) (recheck (view p.shown) (with_token p h (ap is_given k)))
  retry_token_of-Seen none source p h k l = nobody-Seen retry p h (ap is_given k)
  retry_token_of-Seen (some t) none p h k l = absurd (ground (arith, h.source))

  refresh_token_of-Seen :
      (token : Option JsString) (source : Option TokenSource) (p : Provider Text)
      → IsShown p
      → p.token ≡ token
      → p.source ≡ source
      → Seen refresh p (refresh_token_of json token source p).0
  unfolding begin_request validate_current_session clear_session
  refresh_token_of-Seen (some t) (some s) p h k l =
      validate_token_of-Seen refresh refreshing p.token p.source p h refl refl
  refresh_token_of-Seen none source p h k l = nobody-Seen refresh p h (ap is_given k)
  refresh_token_of-Seen (some t) none p h k l = absurd (ground (arith, h.source))

  start_validation-Seen :
      (p : Provider Text) → IsShown p → Seen validation_due p (start_validation json p).0
  unfolding start_validation validate_current_session
  start_validation-Seen p h =
      if-ind {A = Call json} (λ r. Seen validation_due p r.0) p.validation_start _ _
        (validate_token_of-Seen validation_due nobody p.token p.source
          (record p { validation_start = false }) (ground (arith, h)) refl refl)
        (stay validation_due (view p.shown))

  invalidate-Seen :
      (token : JsString) (g : ℕ) (p : Provider Text)
      → Seen (invalidate token g) p (invalidate_session_if_current json token g p)
  unfolding invalidate_session_if_current clear_session
  invalidate-Seen token g p =
      elim (Bool-cases (is_token json p.token token && p.session_generation == g)) [
        | inl e ↦ rw e (invalidated token g (view p.shown))
        | inr e ↦ rw e (stay (invalidate token g) (view p.shown))
      ]

  fail_validation-Seen :
      (i : ℕ) (w : World) (stop : Bool) (token : JsString) (source : TokenSource)
      (e : ApiRequestError) (p : Provider Text)
      → (fetch_current_user (with_signal stop w) parse_path token).1 ≡ throw e
      → view p.shown ≢ out
      → Seen (settled i w) p (fail_validation json token source e p).0
  unfolding fail_validation reject_token suspend_session
  fail_validation-Seen i w stop token source e p h n =
      if-ind {A = Provider Text × ValidationResult} (λ r. Seen (settled i w) p r.0)
        (is_auth_error e && is_kind_aborted e.kind) _ _ (stay (settled i w) (view p.shown))
        (elim (Bool-cases (is_http_status 401 e)) [
          | inl refused ↦ rw refused (refuse i w (view p.shown) token stop e h refused)
          | inr kept ↦ rw kept (suspend i w (view p.shown) token stop e n h kept)
        ])

  settle_validation-Seen :
      (i : ℕ) (w : World) (stop : Bool) (token : JsString) (source : TokenSource)
      (reply : Outcome ApiRequestError AuthUser) (p : Provider Text)
      → (fetch_current_user (with_signal stop w) parse_path token).1 ≡ reply
      → view p.shown ≢ out
      → Seen (settled i w) p (settle_current_validation json token source reply p).0
  unfolding accept_user
  settle_validation-Seen i w stop token source (ok user) p e n =
      confirm i w (view p.shown) token stop user n e
  settle_validation-Seen i w stop token source (throw x) p e n =
      fail_validation-Seen i w stop token source x p e n

  settle_request-Seen :
      (i : ℕ) (w : World) (stop : Bool) (request : TokenRequest) (t : Task)
      (reply : Outcome ApiRequestError AuthTokenResponse) (p : Provider Text)
      → (request_auth_token (with_signal stop w) lower request).1 ≡ reply
      → Seen (settled i w) p (settle_current_request json request t reply p).0
  unfolding accept_token
  settle_request-Seen i w stop request t (ok r) p h = admit i w (view p.shown) request stop r h
  settle_request-Seen i w stop request t (throw e) p h = stay (settled i w) (view p.shown)

  -- The refs of a current validation hold its token, so that its user is not seen as signed out.
  settle_job-Seen :
      (i : ℕ) (w : World) (job : Job) (t : Task) (p : Provider Text)
      → IsShown p
      → IsCurrent p.token p.source (some job)
      → Seen (settled i w) p (settle_job json lower parse_path job t w p).0
  unfolding settle_job
  settle_job-Seen i w (requesting request) t p h c =
      if-ind {A = Call json} (λ r. Seen (settled i w) p r.0) (t.generation == p.generation) _ _
        (settle_request-Seen i w t.aborted request t _ p refl) (stay (settled i w) (view p.shown))
  settle_job-Seen i w (validating token source caller) t p h c =
      if-ind {A = Provider Text × ValidationResult}
        (λ r. Seen (settled i w) p (answered json lower parse_path caller r).0)
        (t.generation == p.generation) _ _
        (settle_validation-Seen i w t.aborted token source _ p refl
          (with_token p h (ap is_given c.0)))
        (stay (settled i w) (view p.shown))

  settle_taken-Seen :
      (i : ℕ) (w : World) (p : Provider Text) (taken : Option (Task × List Task))
      → IsSound p
      → take_task i p.in_flight ≡ taken
      → Seen (settled i w) p (settle_taken json lower parse_path taken w p).0
  settle_taken-Seen i w p none h e = stay (settled i w) (view p.shown)
  settle_taken-Seen i w p (some (t, ts)) (shown, stored, ordered) e =
      let q : Provider Text = record p { in_flight = ts } in
      elim (Bool-cases (t.generation == p.generation)) [
        | inl now ↦ elim (take_task-cases i p.generation p.in_flight t ts ordered.flight e) [
          | inl (old, flight, same) ↦ absurd (ground arith)
          | inr (same, newest, stale) ↦
              let current : current_job p.generation p.in_flight ≡ some t.job =
                same ∙ rw now refl in
              settle_job-Seen i w t.job t q (ground (arith, shown))
                (subst (IsCurrent p.token p.source) current ordered.current)
        ]
        | inr old ↦
            rw (settle_stale json lower parse_path t.job t w q old)
              (stay (settled i w) (view p.shown))
      ]

  -- Every event in a sound provider leaves or changes what is seen in one of these ways.
  pub step-Moves :
      (e : Event) (p : Provider Text)
      → IsSound p
      → Moves lower parse_path e (view p.shown) (view (step json lower parse_path e p).0.shown)
  unfolding step establish_credentials retry_session refresh_current_user start_effect clean_up
      begin_request clear_session
  step-Moves mounted p h = stay mounted (view p.shown)
  step-Moves unmounted p h = stay unmounted (view p.shown)
  step-Moves validation_due p h = start_validation-Seen p h.0
  step-Moves retry p h = retry_token_of-Seen p.token p.source p h.0 refl refl
  step-Moves refresh p h = refresh_token_of-Seen p.token p.source p h.0 refl refl
  step-Moves logout p h = log_out (view p.shown)
  step-Moves (invalidate token g) p h = invalidate-Seen token g p
  step-Moves (sign_in request) p h = stay (sign_in request) (view p.shown)
  step-Moves (settled i w) p h = settle_taken-Seen i w p (take_task i p.in_flight) h refl
