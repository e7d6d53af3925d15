-- ===== src/Session/Reached.antt =====
-- Every event keeps `AuthProvider` sound, from its start on.
use restaurant_ordering_anal.Base.{
  ℕ, true, false, not, ◌&&◌, List, [], ◌∷◌, Option, none, some, JsString, ◌==◌, ◌≡◌, All, arith,
  refl, inl, inr, ==_iff, Bool-cases, if-ind, Outcome, ok, throw, ap, ◌∙◌, subst,
}
use restaurant_ordering_anal.Js.{Json}
use restaurant_ordering_anal.Auth.Tokens.{is_access_token}
use restaurant_ordering_anal.Api.Errors.{ApiRequestError}
use restaurant_ordering_anal.Api.Config.{Url}
use restaurant_ordering_anal.Api.Exchange.{World}
use restaurant_ordering_anal.Session.Users.{
  AuthUser, AuthTokenResponse, TokenRequest, fetch_current_user,
}
use restaurant_ordering_anal.Session.State.{
  TokenSource, Caller, nobody, refreshing, Job, requesting, validating, Task, Provider, take_task,
}
use restaurant_ordering_anal.Session.Outcomes.{
  ValidationResult, is_auth_error, is_kind_aborted, is_http_status,
}
use restaurant_ordering_anal.Session.Provider.{
  Call, validate_token_of, retry_token_of, refresh_token_of, settle_current_validation,
  settle_current_request, fail_validation, validate_current_session, establish_credentials,
  retry_session, refresh_current_user, invalidate_session_if_current, start_validation,
}
use restaurant_ordering_anal.Session.Replies.{request_auth_token-kept}
use restaurant_ordering_anal.Session.Steps.{
  Event, mounted, unmounted, validation_due, retry, refresh, logout, invalidate, sign_in, settled,
  with_signal, settle_job, settle_taken, step, run, answered,
}
use restaurant_ordering_anal.Session.Flight.{
  IsStale, IsNewest, current_of, current_job, take_task-cases,
}
use restaurant_ordering_anal.Session.Sound.{
  is_given, IsCurrent, IsShown, IsStored, IsSound, idle-IsOrdered, begin_request-IsSound,
  clear_session-IsSound, clean_up-IsSound, start_effect-IsSound, show_nobody-IsSound,
  show_checking-IsSound, accept_user-IsSound, reject_token-IsSound, suspend_session-IsSound,
  release-IsSound, accept_token-IsSound,
}

module _ (json : Json) where
  open json use {Text}

  validate_token_of-IsSound :
      (caller : Caller) (token : Option JsString) (source : Option TokenSource) (p : Provider Text)
      → p.token ≡ token
      → p.source ≡ source
      → IsSound p
      → IsSound (validate_token_of json caller token source p).0
  validate_token_of-IsSound caller (some t) (some s) p e f h =
      begin_request-IsSound json (validating t s caller) p (e, f) h
  validate_token_of-IsSound caller none source p e f h =
      show_nobody-IsSound json p (ap is_given e) h
  validate_token_of-IsSound caller (some t) none p e f h = absurd (ground (arith, (h.0).source))

  validate_current_session-IsSound :
      (caller : Caller) (p : Provider Text)
      → IsSound p
      → IsSound (validate_current_session json caller p).0
  unfolding validate_current_session
  validate_current_session-IsSound caller p h =
      validate_token_of-IsSound caller p.token p.source p refl refl h

  retry_token_of-IsSound :
      (token : Option JsString) (source : Option TokenSource) (p : Provider Text)
      → p.token ≡ token
      → p.source ≡ source
      → IsSound p
      → IsSound (retry_token_of json token source p).0
  retry_token_of-IsSound (some t) (some s) p e f h =
      validate_current_session-IsSound nobody _ (show_checking-IsSound json p t e h)
  retry_token_of-IsSound none source p e f h = show_nobody-IsSound json p (ap is_given e) h
  retry_token_of-IsSound (some t) none p e f h = absurd (ground (arith, (h.0).source))

  refresh_token_of-IsSound :
      (token : Option JsString) (source : Option TokenSource) (p : Provider Text)
      → IsSound p
      → IsSound (refresh_token_of json token source p).0
  refresh_token_of-IsSound (some t) (some s) p h = validate_current_session-IsSound refreshing p h
  refresh_token_of-IsSound none source p h = clear_session-IsSound json p h
  refresh_token_of-IsSound (some t) none p h = clear_session-IsSound json p h

  start_validation-IsSound : (p : Provider Text) → IsSound p → IsSound (start_validation json p).0
  unfolding start_validation
  start_validation-IsSound p h =
      if-ind {A = Call json} (λ r. IsSound r.0) p.validation_start _ _
        (validate_current_session-IsSound nobody (record p { validation_start = false })
          (ground (arith, h)))
        h

  invalidate-IsSound :
      (token : JsString) (g : ℕ) (p : Provider Text)
      → IsSound p
      → IsSound (invalidate_session_if_current json token g p)
  unfolding invalidate_session_if_current
  invalidate-IsSound token g p h = ground (arith, h, clear_session-IsSound json p h)

  fail_validation-IsSound :
      (token : JsString) (source : TokenSource) (e : ApiRequestError) (p : Provider Text)
      → IsShown p
      → IsStored p
      → All (IsStale p.generation) p.in_flight
      → p.token ≡ some token
      → p.source ≡ some source
      → IsSound (fail_validation json token source e p).0
  unfolding fail_validation
  fail_validation-IsSound token source e p shown stored idle f g =
      if-ind {A = Provider Text × ValidationResult} (λ r. IsSound r.0)
        (is_auth_error e && is_kind_aborted e.kind) _ _ (release-IsSound json p shown stored idle)
        (if-ind {A = Provider Text × ValidationResult} (λ r. IsSound r.0) (is_http_status 401 e) _ _
          (reject_token-IsSound json p shown stored idle source)
          (suspend_session-IsSound json p shown stored idle token source f g))

  settle_current_validation-IsSound :
      (token : JsString) (source : TokenSource) (reply : Outcome ApiRequestError AuthUser)
      (p : Provider Text)
      → IsShown p
      → IsStored p
      → All (IsStale p.generation) p.in_flight
      → p.token ≡ some token
      → p.source ≡ some source
      → IsSound (settle_current_validation json token source reply p).0
  settle_current_validation-IsSound token source (ok user) p shown stored idle f g =
      accept_user-IsSound json p shown stored idle token user f
  settle_current_validation-IsSound token source (throw e) p shown stored idle f g =
      fail_validation-IsSound token source e p shown stored idle f g

  settle_current_request-IsSound :
      (request : TokenRequest) (t : Task) (reply : Outcome ApiRequestError AuthTokenResponse)
      (p : Provider Text)
      → ((r : AuthTokenResponse) → reply ≡ ok r → is_access_token r.access_token ≡ true)
      → IsShown p
      → IsStored p
      → All (IsStale p.generation) p.in_flight
      → t.generation ≡ p.generation
      → t.aborted ≡ false
      → p.active_controller ≡ some p.generation
      → IsSound (settle_current_request json request t reply p).0
  settle_current_request-IsSound request t (ok r) p k shown stored idle e f g =
      accept_token-IsSound json p shown stored idle request t r (k r refl) e f g
  settle_current_request-IsSound request t (throw x) p k shown stored idle e f g =
      release-IsSound json p shown stored idle

  module _ (lower : JsString → JsString) (parse_path : JsString → Option Url) where
    answered-IsSound :
        (caller : Caller) (r : Provider Text × ValidationResult)
        → IsSound r.0
        → IsSound (answered json lower parse_path caller r).0
    answered-IsSound caller (p, result) h = h

    -- A call of an earlier generation settles, and changes nothing.
    pub settle_stale :
        (job : Job) (t : Task) (w : World) (p : Provider Text)
        → (t.generation == p.generation) ≡ false
        → (settle_job json lower parse_path job t w p).0 ≡ p
    unfolding settle_job
    settle_stale (requesting request) t w p e = rw e
    settle_stale (validating token source caller) t w p e = rw e

    -- The call of the present generation settles, when all others are stale.
    settle_current-IsSound :
        (job : Job) (t : Task) (w : World) (p : Provider Text)
        → IsShown p
        → IsStored p
        → All (IsStale p.generation) p.in_flight
        → IsNewest p.generation t
        → p.active_controller ≡ some p.generation
        → IsCurrent p.token p.source (some job)
        → (t.generation == p.generation) ≡ true
        → IsSound (settle_job json lower parse_path job t w p).0
    unfolding settle_job
    settle_current-IsSound (requesting request) t w p shown stored idle newest active c e = rw e (
        settle_current_request-IsSound request t _ p
          (request_auth_token-kept (with_signal t.aborted w) lower request) shown stored idle
          (ground (arith, ==_iff t.generation p.generation)) (newest.1 ∙ ap not e) active)
    settle_current-IsSound (validating token source caller) t w p shown stored idle newest active c
          e =
        rw e (
          answered-IsSound caller
            (settle_current_validation json token source
              (fetch_current_user (with_signal t.aborted w) parse_path token).1 p)
            (settle_current_validation-IsSound token source _ p shown stored idle c.0 c.1))

    settle_newest-IsSound :
        (t : Task) (ts : List Task) (w : World) (p : Provider Text)
        → IsSound p
        → (current_job p.generation p.in_flight ≡ current_of p.generation t)
        → IsNewest p.generation t
        → All (IsStale p.generation) ts
        → IsSound (settle_job json lower parse_path t.job t w (record p { in_flight = ts })).0
    settle_newest-IsSound t ts w p (shown, stored, ordered) same newest stale =
        elim (Bool-cases (t.generation == p.generation)) [
          | inl e ↦
              let now : current_job p.generation p.in_flight ≡ some t.job = same ∙ rw e refl in
              settle_current-IsSound t.job t w (record p { in_flight = ts }) (ground (arith, shown))
                (ground (arith, stored)) stale newest (ground (arith, ordered.active))
                (subst (IsCurrent p.token p.source) now ordered.current) e
          | inr e ↦ rw (settle_stale t.job t w (record p { in_flight = ts }) e) (
            ground (arith, shown),
            ground (arith, stored),
            idle-IsOrdered json (record p { in_flight = ts }) stale,
          )
        ]

    settle_taken-IsSound :
        (i : ℕ) (w : World) (p : Provider Text) (taken : Option (Task × List Task))
        → take_task i p.in_flight ≡ taken
        → IsSound p
        → IsSound (settle_taken json lower parse_path taken w p).0
    settle_taken-IsSound i w p none e h = h
    settle_taken-IsSound i w p (some (t, ts)) e (shown, stored, ordered) =
        elim (take_task-cases i p.generation p.in_flight t ts ordered.flight e) [
          | inl (old, flight, same) ↦
              rw (settle_stale t.job t w (record p { in_flight = ts }) old) (
                ground (arith, shown),
                ground (arith, stored),
                record {
                  flight = flight;
                  active = rw same ordered.active;
                  current = rw same ordered.current;
                },
              )
          | inr (same, newest, stale) ↦
              settle_newest-IsSound t ts w p (shown, stored, ordered) same newest stale
        ]

    -- Every event keeps the provider sound.
    pub step-IsSound :
        (e : Event) (p : Provider Text) → IsSound p → IsSound (step json lower parse_path e p).0
    unfolding step establish_credentials retry_session refresh_current_user
    step-IsSound mounted p h = start_effect-IsSound json p h
    step-IsSound unmounted p h = clean_up-IsSound json p h
    step-IsSound validation_due p h = start_validation-IsSound p h
    step-IsSound retry p h = retry_token_of-IsSound p.token p.source p refl refl h
    step-IsSound refresh p h = refresh_token_of-IsSound p.token p.source p h
    step-IsSound logout p h = clear_session-IsSound json p h
    step-IsSound (invalidate token g) p h = invalidate-IsSound token g p h
    step-IsSound (sign_in request) p h = begin_request-IsSound json (requesting request) p tt h
    step-IsSound (settled i w) p h = settle_taken-IsSound i w p (take_task i p.in_flight) refl h

    pub run-IsSound :
        (es : List Event) (p : Provider Text) → IsSound p → IsSound (run json lower parse_path es p)
    unfolding run
    run-IsSound [] p h = h
    run-IsSound (e ∷ es) p h =
        run-IsSound es (step json lower parse_path e p).0 (step-IsSound e p h)
