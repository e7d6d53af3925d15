-- ===== src/Session/Refined.antt =====
-- `AuthProvider` of frontend/src/features/auth/AuthContext.tsx against the session of Session/Spec.
use restaurant_ordering_anal.Base.{
  ℕ, true, false, not, List, [], ◌∷◌, Option, none, some, JsString, ◌==◌, ◌≡◌, arith, refl, sym,
  inl, inr, Bool-cases, Outcome, ok, throw, ap, ◌∙◌, subst,
}
use restaurant_ordering_anal.Js.{Json}
use restaurant_ordering_anal.Auth.Tokens.{AuthState}
use restaurant_ordering_anal.Auth.Memory.{IsSafe}
use restaurant_ordering_anal.Api.Errors.{ApiRequestError}
use restaurant_ordering_anal.Api.Config.{Url}
use restaurant_ordering_anal.Api.Exchange.{World}
use restaurant_ordering_anal.Session.Users.{
  AuthUser, AuthTokenResponse, TokenRequest, fetch_current_user, request_auth_token,
}
use restaurant_ordering_anal.Session.State.{
  TokenSource, Job, requesting, validating, Task, Provider, take_task, start,
}
use restaurant_ordering_anal.Session.Outcomes.{is_kind_aborted}
use restaurant_ordering_anal.Session.Provider.{
  establish_credentials, retry_session, refresh_current_user, settle_current_validation,
  settle_current_request,
}
use restaurant_ordering_anal.Session.Steps.{
  Event, mounted, unmounted, validation_due, retry, refresh, logout, invalidate, sign_in, settled,
  with_signal, settle_job, settle_taken, step, run,
}
use restaurant_ordering_anal.Session.Flight.{current_job, take_task-cases}
use restaurant_ordering_anal.Session.Sound.{IsCurrent, IsSound}
use restaurant_ordering_anal.Session.Reached.{settle_stale, step-IsSound}
use restaurant_ordering_anal.Session.Signed.{start-IsSound}
use restaurant_ordering_anal.Session.Progress.{fetch_current_user-unaborted}
use restaurant_ordering_anal.Session.Spec.{
  spec_asked, spec_checked, spec_settled, spec_step, spec_run, calls_of, abstract, call_of,
}
use restaurant_ordering_anal.Session.SpecCalls.{taken_call, take_call-calls_of}
use restaurant_ordering_anal.Session.SpecOperations.{
  clear_session-abstract, begin_request-abstract, clean_up-abstract, start_effect-abstract,
  retry_token_of-abstract, refresh_token_of-abstract, start_validation-abstract,
  invalidate-abstract, accept_user-abstract, fail_validation-abstract, accept_token-abstract,
}

module _ (json : Json) where
  open json use {Text}

  settle_current_validation-abstract :
      (token : JsString) (source : TokenSource) (reply : Outcome ApiRequestError AuthUser)
      (p : Provider Text)
      → ((e : ApiRequestError) → reply ≡ throw e → is_kind_aborted e.kind ≡ false)
      → p.token ≡ some token
      → abstract (settle_current_validation json token source reply p).0
        ≡ spec_checked token reply (abstract p)
  settle_current_validation-abstract token source (ok user) p k h =
      accept_user-abstract json token user p h
  settle_current_validation-abstract token source (throw e) p k h =
      fail_validation-abstract json token source e p (k e refl) h

  settle_current_request-abstract :
      (request : TokenRequest) (t : Task) (reply : Outcome ApiRequestError AuthTokenResponse)
      (p : Provider Text)
      → (t.generation == p.generation) ≡ true
      → abstract (settle_current_request json request t reply p).0
        ≡ spec_asked request reply (abstract p)
  settle_current_request-abstract request t (ok r) p e = accept_token-abstract json request t r p e
  settle_current_request-abstract request t (throw x) p e = refl

  module _ (lower : JsString → JsString) (parse_path : JsString → Option Url) where
    -- The call of the present generation settles.
    settle_job-abstract :
        (job : Job) (t : Task) (ts : List Task) (w : World) (p : Provider Text)
        → (t.generation == p.generation) ≡ true
        → t.aborted ≡ false
        → IsCurrent p.token p.source (some job)
        → abstract (settle_job json lower parse_path job t w (record p { in_flight = ts })).0
          ≡ spec_settled lower parse_path w
              (some (some (call_of job), calls_of p.generation ts))
              (abstract p)
    unfolding settle_job
    settle_job-abstract (requesting request) t ts w p e a c =
        let q : Provider Text = record p { in_flight = ts } in
        rw e (
          settle_current_request-abstract request t
            (request_auth_token (with_signal t.aborted w) lower request).1 q e
          ∙ ap
              (λ stop.
                spec_asked request (request_auth_token (with_signal stop w) lower request).1
                  (abstract q))
              a)
    settle_job-abstract (validating token source caller) t ts w p e a c =
        let q : Provider Text = record p { in_flight = ts } in
        rw e (
          settle_current_validation-abstract token source
            (fetch_current_user (with_signal t.aborted w) parse_path token).1 q
            (λ x failed. fetch_current_user-unaborted w parse_path token x (
              ap (λ stop. (fetch_current_user (with_signal stop w) parse_path token).1) (sym a)
              ∙ failed))
            c.0
          ∙ ap
              (λ stop.
                spec_checked token (fetch_current_user (with_signal stop w) parse_path token).1
                  (abstract q))
              a)

    settle_taken-abstract :
        (i : ℕ) (w : World) (p : Provider Text) (taken : Option (Task × List Task))
        → IsSound p
        → take_task i p.in_flight ≡ taken
        → abstract (settle_taken json lower parse_path taken w p).0
          ≡ spec_settled lower parse_path w (taken_call p.generation taken) (abstract p)
    settle_taken-abstract i w p none h e = refl
    settle_taken-abstract i w p (some (t, ts)) (shown, stored, ordered) e =
        let q : Provider Text = record p { in_flight = ts } in
        elim (Bool-cases (t.generation == p.generation)) [
          | inl now ↦ elim (take_task-cases i p.generation p.in_flight t ts ordered.flight e) [
            | inl (old, flight, same) ↦ absurd (ground arith)
            | inr (same, newest, stale) ↦
                let current : current_job p.generation p.in_flight ≡ some t.job =
                  same ∙ rw now refl in
                rw now (
                  settle_job-abstract t.job t ts w p now (newest.1 ∙ ap not now)
                    (subst (IsCurrent p.token p.source) current ordered.current))
          ]
          | inr old ↦ rw old (ap abstract (settle_stale json lower parse_path t.job t w q old))
        ]

    step-abstract :
        (e : Event) (p : Provider Text)
        → IsSound p
        → abstract (step json lower parse_path e p).0 ≡ spec_step lower parse_path e (abstract p)
    unfolding step spec_step establish_credentials retry_session refresh_current_user
    step-abstract mounted p h = start_effect-abstract json p
    step-abstract unmounted p h = clean_up-abstract json p h.2
    step-abstract validation_due p h = start_validation-abstract json p h
    step-abstract retry p h = retry_token_of-abstract json p.token p.source p h refl (h.0).source
    step-abstract refresh p h =
        refresh_token_of-abstract json p.token p.source p h refl (h.0).source
    step-abstract logout p h = clear_session-abstract json p h.2
    step-abstract (invalidate token g) p h = invalidate-abstract json token g p h.2
    step-abstract (sign_in request) p h = begin_request-abstract json (requesting request) p h.2
    step-abstract (settled i w) p h =
        settle_taken-abstract i w p (take_task i p.in_flight) h refl
        ∙ ap (λ taken. spec_settled lower parse_path w taken (abstract p))
            (sym (take_call-calls_of p.generation i p.in_flight))

    run-abstract :
        (es : List Event) (p : Provider Text)
        → IsSound p
        → abstract (run json lower parse_path es p) ≡ spec_run lower parse_path es (abstract p)
    unfolding run spec_run
    run-abstract [] p h = refl
    run-abstract (e ∷ es) p h =
        run-abstract es (step json lower parse_path e p).0
          (step-IsSound json lower parse_path e p h)
        ∙ ap (spec_run lower parse_path es) (step-abstract e p h)

    -- From its start on, whatever the events and their order, `AuthProvider` does what the session of
    -- Session/Spec does: which token is held, what is seen, whether it is a demonstration, the generation
    -- of the session, the pending start of a validation, and which unanswered calls still count are as
    -- they are there, from what its start amounts to; provided that a token remembered in memory at the
    -- start is in the accepted form.
    pub start-refines :
        (es : List Event) (s : AuthState Text)
        → IsSafe s
        → abstract (run json lower parse_path es (start json s))
          ≡ spec_run lower parse_path es (abstract (start json s))
    start-refines es s h = run-abstract es (start json s) (start-IsSound json s h)
