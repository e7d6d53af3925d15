-- ===== src/Session/SpecOperations.antt =====
-- Each operation of `AuthProvider` (frontend/src/features/auth/AuthContext.tsx) as the session of
-- Session/Spec sees it.
use restaurant_ordering_anal.Base.{
  ℕ, suc, true, false, ◌&&◌, Option, none, some, JsString, if◌then◌else◌, ◌==◌, ◌≡◌, arith, refl,
  inl, inr, Bool-cases, Option-cases, ok, throw, ap, ◌∙◌,
}
use restaurant_ordering_anal.Js.{Json}
use restaurant_ordering_anal.Api.Errors.{ApiRequestError}
use restaurant_ordering_anal.Session.Users.{AuthUser, AuthTokenResponse, TokenRequest}
use restaurant_ordering_anal.Session.State.{
  TokenSource, Caller, nobody, refreshing, Job, validating, Task, Provider, abort_active,
  with_phase, checking_session,
}
use restaurant_ordering_anal.Session.Outcomes.{is_kind_aborted}
use restaurant_ordering_anal.Session.Provider.{
  validate_token_of, validate_current_session, retry_token_of, refresh_token_of, clear_session,
  invalidate_session_if_current, start_effect, clean_up, start_validation, begin_request,
  accept_user, accept_token, reject_token, suspend_session, fail_validation, show, is_token,
}
use restaurant_ordering_anal.Session.Sound.{is_given, IsSound, IsOrdered, superseded-idle}
use restaurant_ordering_anal.Session.Spec.{
  spec_sign_out, all_superseded, spec_check, spec_retry, spec_refresh, spec_asked, spec_checked,
  calls_of, abstract, holds, spec_call, call_of,
}
use restaurant_ordering_anal.Session.SpecCalls.{
  stale_calls, superseded-calls_of, superseded-abort_active,
}

module _ (json : Json) where
  open json use {Text}

  superseded :
      (p : Provider Text)
      → IsOrdered p
      → calls_of (suc p.generation) (abort_active p.active_controller p.in_flight)
        ≡ all_superseded (calls_of p.generation p.in_flight)
  superseded p o =
      stale_calls (suc p.generation) _ (superseded-idle json p o)
      ∙ superseded-calls_of (suc p.generation) p.generation _
      ∙ superseded-abort_active p.active_controller p.generation p.in_flight

  pub clear_session-abstract :
      (p : Provider Text)
      → IsOrdered p
      → abstract (clear_session json p) ≡ spec_sign_out (abstract p)
  unfolding clear_session
  clear_session-abstract p o = ground (arith, superseded p o)

  pub begin_request-abstract :
      (job : Job) (p : Provider Text)
      → IsOrdered p
      → abstract (begin_request json job p) ≡ spec_call (call_of job) (abstract p)
  unfolding begin_request
  begin_request-abstract job p o = ground (arith, superseded p o)

  pub clean_up-abstract :
      (p : Provider Text)
      → IsOrdered p
      → abstract (clean_up json p) ≡ record (abstract p) {
        start_due = false;
        calls = all_superseded (calls_of p.generation p.in_flight);
      }
  unfolding clean_up
  clean_up-abstract p o = ground (arith, superseded p o)

  pub start_effect-abstract :
      (p : Provider Text)
      → abstract (start_effect json p)
        ≡ record (abstract p) { start_due = is_given p.initial_token }
  unfolding start_effect
  start_effect-abstract p = elim (Option-cases p.initial_token) [
    | inl e ↦ ground arith
    | inr (t, e) ↦ ground arith
  ]

  validate_token_of-abstract :
      (caller : Caller) (token : Option JsString) (source : Option TokenSource) (p : Provider Text)
      → IsOrdered p
      → is_given source ≡ is_given token
      → abstract (validate_token_of json caller token source p).0 ≡ spec_check token (abstract p)
  validate_token_of-abstract caller (some t) (some s) p o e =
      begin_request-abstract (validating t s caller) p o
  validate_token_of-abstract caller none none p o e = refl
  validate_token_of-abstract caller none (some s) p o e = absurd (cc)
  validate_token_of-abstract caller (some t) none p o e = absurd (cc)

  validate_current_session-abstract :
      (caller : Caller) (p : Provider Text)
      → IsOrdered p
      → is_given p.source ≡ is_given p.token
      → abstract (validate_current_session json caller p).0 ≡ spec_check p.token (abstract p)
  unfolding validate_current_session
  validate_current_session-abstract caller p o e =
      validate_token_of-abstract caller p.token p.source p o e

  pub retry_token_of-abstract :
      (token : Option JsString) (source : Option TokenSource) (p : Provider Text)
      → IsSound p
      → p.token ≡ token
      → is_given source ≡ is_given token
      → abstract (retry_token_of json token source p).0 ≡ spec_retry token (abstract p)
  retry_token_of-abstract (some t) (some s) p (shown, stored, ordered) e g =
      let q : Provider Text = show json (with_phase t p.demo_session checking_session none) p in
      validate_current_session-abstract nobody q (ground (arith, ordered)) shown.source
      ∙ ap (λ held. spec_check held (abstract q)) e
  retry_token_of-abstract none none p h e g = refl
  retry_token_of-abstract none (some s) p h e g = absurd (cc)
  retry_token_of-abstract (some t) none p h e g = absurd (cc)

  pub refresh_token_of-abstract :
      (token : Option JsString) (source : Option TokenSource) (p : Provider Text)
      → IsSound p
      → p.token ≡ token
      → is_given source ≡ is_given token
      → abstract (refresh_token_of json token source p).0 ≡ spec_refresh token (abstract p)
  refresh_token_of-abstract (some t) (some s) p (shown, stored, ordered) e g =
      validate_current_session-abstract refreshing p ordered shown.source
      ∙ ap (λ held. spec_check held (abstract p)) e
  refresh_token_of-abstract none none p (shown, stored, ordered) e g =
      clear_session-abstract p ordered
  refresh_token_of-abstract none (some s) p h e g = absurd (cc)
  refresh_token_of-abstract (some t) none p h e g = absurd (cc)

  pub start_validation-abstract :
      (p : Provider Text)
      → IsSound p
      → abstract (start_validation json p).0 ≡ (
          if p.validation_start
          then spec_check p.token (record (abstract p) { start_due = false })
          else abstract p)
  unfolding start_validation validate_current_session
  start_validation-abstract p (shown, stored, ordered) = elim (Bool-cases p.validation_start) [
    | inl e ↦ rw e (
        validate_token_of-abstract nobody p.token p.source (record p { validation_start = false })
          (ground (arith, ordered)) shown.source)
    | inr e ↦ rw e refl
  ]

  same_holds : (o : Option JsString) (token : JsString) → is_token json o token ≡ holds o token
  same_holds none token = refl
  same_holds (some t) token = refl

  pub invalidate-abstract :
      (token : JsString) (g : ℕ) (p : Provider Text)
      → IsOrdered p
      → abstract (invalidate_session_if_current json token g p) ≡ (
          if holds p.token token && p.session_generation == g
          then spec_sign_out (abstract p)
          else abstract p)
  unfolding invalidate_session_if_current
  invalidate-abstract token g p o =
      rw (same_holds p.token token)
        (elim (Bool-cases (holds p.token token && p.session_generation == g)) [
          | inl e ↦ rw e (clear_session-abstract p o)
          | inr e ↦ rw e refl
        ])

  pub accept_user-abstract :
      (token : JsString) (user : AuthUser) (p : Provider Text)
      → p.token ≡ some token
      → abstract (accept_user json token user p) ≡ spec_checked token (ok user) (abstract p)
  unfolding accept_user
  accept_user-abstract token user p e = ground arith

  pub fail_validation-abstract :
      (token : JsString) (source : TokenSource) (e : ApiRequestError) (p : Provider Text)
      → is_kind_aborted e.kind ≡ false
      → p.token ≡ some token
      → abstract (fail_validation json token source e p).0
        ≡ spec_checked token (throw e) (abstract p)
  unfolding fail_validation reject_token suspend_session
  fail_validation-abstract token source e p k h = ground arith

  pub accept_token-abstract :
      (request : TokenRequest) (t : Task) (r : AuthTokenResponse) (p : Provider Text)
      → (t.generation == p.generation) ≡ true
      → abstract (accept_token json request t r p) ≡ spec_asked request (ok r) (abstract p)
  unfolding accept_token
  accept_token-abstract request t r p e = ground arith
