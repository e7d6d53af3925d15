-- ===== src/Session/Checked.antt =====
-- The check of a session comes to an end: while it is shown, it is pending or under way.
use restaurant_ordering_anal.Base.{
  ℕ, Bool, true, false, not, ◌||◌, List, [], ◌∷◌, Option, none, some, JsString, ◌≡◌, ◌==◌, refl,
  inl, inr, arith, if-ind, Outcome, ok, throw, Bool-cases, ap, sym, ◌∙◌,
}
use restaurant_ordering_anal.Js.{Json}
use restaurant_ordering_anal.Auth.Tokens.{AuthState}
use restaurant_ordering_anal.Api.Config.{Url}
use restaurant_ordering_anal.Api.Errors.{ApiRequestError}
use restaurant_ordering_anal.Api.Exchange.{World}
use restaurant_ordering_anal.Session.Users.{
  AuthUser, AuthTokenResponse, TokenRequest, fetch_current_user,
}
use restaurant_ordering_anal.Session.State.{
  AuthPhase, checking_session, TokenSource, Caller, nobody, refreshing, Job, requesting, validating,
  Task, Provider, start, start_canonical, start_legacy, take_task,
}
use restaurant_ordering_anal.Session.Outcomes.{is_kind_aborted}
use restaurant_ordering_anal.Session.Provider.{
  Call, begin_request, accept_user, accept_token, reject_token, suspend_session, fail_validation,
  clear_session, settle_current_validation, settle_current_request, validate_token_of,
  validate_current_session, retry_token_of, refresh_token_of, start_validation, start_effect,
  establish_credentials, retry_session, refresh_current_user, invalidate_session_if_current,
}
use restaurant_ordering_anal.Session.Steps.{
  Event, mounted, unmounted, validation_due, retry, refresh, logout, invalidate, sign_in, settled,
  with_signal, settle_job, settle_taken, step, run,
}
use restaurant_ordering_anal.Session.Flight.{current_job, take_task-cases, stale-IsFlight}
use restaurant_ordering_anal.Session.Sound.{IsSound}
use restaurant_ordering_anal.Session.Reached.{settle_stale, step-IsSound}
use restaurant_ordering_anal.Session.Progress.{fetch_current_user-unaborted}

abbrev pub is_checking : AuthPhase → Bool
is_checking checking_session = true
is_checking _ = false

abbrev pub is_validation : Option Job → Bool
is_validation (some (validating token source caller)) = true
is_validation _ = false

-- The forms for credentials are not shown while a session is checked, and the provider stays mounted.
abbrev pub is_orderly : Event → AuthPhase → Bool
is_orderly (sign_in request) phase = not (is_checking phase)
is_orderly mounted phase = false
is_orderly unmounted phase = false
is_orderly _ phase = true

module _ {Text : Type 0} where
  -- The timer that starts a validation is pending, or a validation is the current call.
  abbrev pub is_under_way : Provider Text → Bool
  is_under_way p = p.validation_start || is_validation (current_job p.generation p.in_flight)

  abbrev pub IsBusy : Provider Text → Type 0
  IsBusy p = (not (is_checking p.shown.phase) || is_under_way p) ≡ true

requesting-unvalidated :
    (checking pending : Bool) (job : Option Job) (request : TokenRequest)
    → job ≡ some (requesting request)
    → (not checking || (pending || is_validation job)) ≡ true
    → (not checking || pending) ≡ true
requesting-unvalidated true true job request e h = refl
requesting-unvalidated true false job request e h = absurd (ground arith)
requesting-unvalidated false pending job request e h = refl

module _ (json : Json) where
  open json use {Text}

  begin_validation-IsBusy :
      (token : JsString) (source : TokenSource) (caller : Caller) (p : Provider Text)
      → IsBusy (begin_request json (validating token source caller) p)
  unfolding begin_request
  begin_validation-IsBusy token source caller p = ground arith

  validate_token_of-IsBusy :
      (caller : Caller) (token : Option JsString) (source : Option TokenSource) (p : Provider Text)
      → IsBusy (validate_token_of json caller token source p).0
  validate_token_of-IsBusy caller (some t) (some s) p = begin_validation-IsBusy t s caller p
  validate_token_of-IsBusy caller none source p = refl
  validate_token_of-IsBusy caller (some t) none p = refl

  start_validation-IsBusy : (p : Provider Text) → IsBusy p → IsBusy (start_validation json p).0
  unfolding start_validation validate_current_session
  start_validation-IsBusy p h =
      if-ind {A = Call json} (λ r. IsBusy r.0) p.validation_start _ _
        (validate_token_of-IsBusy nobody p.token p.source (record p { validation_start = false })) h

  retry_token_of-IsBusy :
      (token : Option JsString) (source : Option TokenSource) (p : Provider Text)
      → IsBusy (retry_token_of json token source p).0
  unfolding validate_current_session
  retry_token_of-IsBusy (some t) (some s) p = validate_token_of-IsBusy nobody p.token p.source _
  retry_token_of-IsBusy none source p = refl
  retry_token_of-IsBusy (some t) none p = refl

  cleared-IsBusy : (p : Provider Text) → IsBusy (clear_session json p)
  unfolding clear_session
  cleared-IsBusy p = refl

  refresh_token_of-IsBusy :
      (token : Option JsString) (source : Option TokenSource) (p : Provider Text)
      → IsBusy (refresh_token_of json token source p).0
  unfolding validate_current_session
  refresh_token_of-IsBusy (some t) (some s) p =
      validate_token_of-IsBusy refreshing p.token p.source p
  refresh_token_of-IsBusy none source p = cleared-IsBusy p
  refresh_token_of-IsBusy (some t) none p = cleared-IsBusy p

  invalidate-IsBusy :
      (token : JsString) (g : ℕ) (p : Provider Text)
      → IsBusy p
      → IsBusy (invalidate_session_if_current json token g p)
  unfolding invalidate_session_if_current
  invalidate-IsBusy token g p h = ground (arith, h, cleared-IsBusy p)

  fail_validation-IsBusy :
      (token : JsString) (source : TokenSource) (e : ApiRequestError) (p : Provider Text)
      → is_kind_aborted e.kind ≡ false
      → IsBusy (fail_validation json token source e p).0
  unfolding fail_validation reject_token suspend_session
  fail_validation-IsBusy token source e p k = ground (arith, k)

  settle_current_validation-IsBusy :
      (w : World) (parse_path : JsString → Option Url) (token : JsString) (source : TokenSource)
      (reply : Outcome ApiRequestError AuthUser) (p : Provider Text)
      → (fetch_current_user (with_signal false w) parse_path token).1 ≡ reply
      → IsBusy (settle_current_validation json token source reply p).0
  unfolding accept_user
  settle_current_validation-IsBusy w parse_path token source (ok user) p e = refl
  settle_current_validation-IsBusy w parse_path token source (throw x) p e =
      fail_validation-IsBusy token source x p (fetch_current_user-unaborted w parse_path token x e)

  -- The answer to credentials begins a validation, or leaves what is shown as it is.
  settle_current_request-IsBusy :
      (request : TokenRequest) (t : Task) (reply : Outcome ApiRequestError AuthTokenResponse)
      (p : Provider Text)
      → (t.generation == p.generation) ≡ true
      → (not (is_checking p.shown.phase) || p.validation_start) ≡ true
      → IsBusy (settle_current_request json request t reply p).0
  unfolding accept_token
  settle_current_request-IsBusy request t (ok r) p e h = ground arith
  settle_current_request-IsBusy request t (throw x) p e h = ground arith

  module _ (lower : JsString → JsString) (parse_path : JsString → Option Url) where
    settle_current-IsBusy :
        (job : Job) (t : Task) (w : World) (ts : List Task) (p : Provider Text)
        → (t.generation == p.generation) ≡ true
        → t.aborted ≡ false
        → current_job p.generation p.in_flight ≡ some job
        → IsBusy p
        → IsBusy (settle_job json lower parse_path job t w (record p { in_flight = ts })).0
    unfolding settle_job
    settle_current-IsBusy (requesting request) t w ts p e a c h = rw e (
        settle_current_request-IsBusy request t _ (record p { in_flight = ts }) e
          (requesting-unvalidated (is_checking p.shown.phase) p.validation_start _ request c h))
    settle_current-IsBusy (validating token source caller) t w ts p e a c h =
        rw (e, a)
          (settle_current_validation-IsBusy w parse_path token source _
            (record p { in_flight = ts }) refl)

    settle_taken-IsBusy :
        (i : ℕ) (w : World) (p : Provider Text) (taken : Option (Task × List Task))
        → take_task i p.in_flight ≡ taken
        → IsSound p
        → IsBusy p
        → IsBusy (settle_taken json lower parse_path taken w p).0
    settle_taken-IsBusy i w p none e s h = h
    settle_taken-IsBusy i w p (some (t, ts)) e (shown, stored, ordered) h =
        elim (take_task-cases i p.generation p.in_flight t ts ordered.flight e) [
          | inl (old, flight, same) ↦
              rw (settle_stale json lower parse_path t.job t w (record p { in_flight = ts }) old)
                (rw same h)
          | inr (same, newest, stale) ↦ elim (Bool-cases (t.generation == p.generation)) [
            | inl now ↦
                settle_current-IsBusy t.job t w ts p now (newest.1 ∙ ap not now)
                  (same ∙ rw now refl) h
            | inr old ↦
                let none_before : current_job p.generation p.in_flight ≡ none =
                  same ∙ rw old refl in
                let none_after = (stale-IsFlight p.generation ts stale).1 in
                rw (settle_stale json lower parse_path t.job t w (record p { in_flight = ts }) old)
                  (rw (none_after ∙ sym none_before) h)
          ]
        ]

    step-IsBusy :
        (e : Event) (p : Provider Text)
        → is_orderly e p.shown.phase ≡ true
        → IsSound p
        → IsBusy p
        → IsBusy (step json lower parse_path e p).0
    unfolding step establish_credentials retry_session refresh_current_user begin_request
    step-IsBusy mounted p o s h = absurd (cc)
    step-IsBusy unmounted p o s h = absurd (cc)
    step-IsBusy validation_due p o s h = start_validation-IsBusy p h
    step-IsBusy retry p o s h = retry_token_of-IsBusy p.token p.source p
    step-IsBusy refresh p o s h = refresh_token_of-IsBusy p.token p.source p
    step-IsBusy logout p o s h = cleared-IsBusy p
    step-IsBusy (invalidate token g) p o s h = invalidate-IsBusy token g p h
    step-IsBusy (sign_in request) p o s h = ground arith
    step-IsBusy (settled i w) p o s h = settle_taken-IsBusy i w p (take_task i p.in_flight) refl s h

    -- Every event is orderly where it happens.
    abbrev pub IsOrderly : List Event → Provider Text → Type 0
    IsOrderly [] p = Unit {0}
    IsOrderly (e ∷ es) p =
        (is_orderly e p.shown.phase ≡ true) × IsOrderly es (step json lower parse_path e p).0

    pub run-IsBusy :
        (es : List Event) (p : Provider Text)
        → IsOrderly es p
        → IsSound p
        → IsBusy p
        → IsBusy (run json lower parse_path es p)
    unfolding run
    run-IsBusy [] p o s h = h
    run-IsBusy (e ∷ es) p o s h =
        run-IsBusy es (step json lower parse_path e p).0 o.1
          (step-IsSound json lower parse_path e p s) (step-IsBusy e p o.0 s h)

    start_legacy-IsBusy :
        (s : AuthState Text) (stored : Option JsString)
        → IsBusy (start_effect json (start_legacy json s stored))
    unfolding start_effect
    start_legacy-IsBusy s none = refl
    start_legacy-IsBusy s (some t) = refl

    start_canonical-IsBusy :
        (s : AuthState Text) (stored : Option JsString)
        → IsBusy (start_effect json (start_canonical json s stored))
    unfolding start_effect
    start_canonical-IsBusy s none = start_legacy-IsBusy _ _
    start_canonical-IsBusy s (some t) = refl

    pub start-IsBusy :
        (s : AuthState Text) → IsBusy (step json lower parse_path mounted (start json s)).0
    unfolding step start
    start-IsBusy s = start_canonical-IsBusy _ _
