-- ===== src/Session/Ends.antt =====
-- Whatever the network answers, the answer to a check of the session ends it.
use restaurant_ordering_anal.Base.{
  Bool, true, false, not, List, [], ◌∷◌, Option, none, some, JsString, ◌≡◌, ◌==◌, refl, inl, inr,
  arith, Outcome, ok, throw, Bool-cases, ap, sym, ◌∙◌, if◌then◌else◌, subst,
}
use restaurant_ordering_anal.Js.{Json}
use restaurant_ordering_anal.Auth.Tokens.{AuthState}
use restaurant_ordering_anal.Auth.Memory.{IsSafe}
use restaurant_ordering_anal.Api.Config.{Url}
use restaurant_ordering_anal.Api.Errors.{ApiRequestError}
use restaurant_ordering_anal.Api.Exchange.{World}
use restaurant_ordering_anal.Session.Users.{AuthUser, fetch_current_user}
use restaurant_ordering_anal.Session.State.{
  TokenSource, nobody, Job, requesting, validating, Task, Provider, start, take_task,
}
use restaurant_ordering_anal.Session.Outcomes.{is_kind_aborted}
use restaurant_ordering_anal.Session.Provider.{
  begin_request, accept_user, reject_token, suspend_session, fail_validation,
  settle_current_validation, validate_token_of, validate_current_session, start_validation,
}
use restaurant_ordering_anal.Session.Steps.{
  Event, mounted, validation_due, settled, with_signal, settle_job, settle_taken, step, run,
}
use restaurant_ordering_anal.Session.Flight.{current_of, current_job, IsNewest, IsFlight}
use restaurant_ordering_anal.Session.Sound.{IsSound, IsShown, is_given}
use restaurant_ordering_anal.Session.Reached.{step-IsSound, run-IsSound}
use restaurant_ordering_anal.Session.Signed.{start-IsSound}
use restaurant_ordering_anal.Session.Progress.{fetch_current_user-unaborted}
use restaurant_ordering_anal.Session.Checked.{
  is_checking, is_validation, IsBusy, IsOrderly, run-IsBusy, start-IsBusy,
}

-- The timer, if it is pending, and an answer of the network to the newest call.
abbrev pub finish_from : Bool → World → List Event
finish_from pending w = if pending then validation_due ∷ settled 0 w ∷ [] else settled 0 w ∷ []

abbrev pub finish : {Text : Type 0} → World → Provider Text → List Event
finish w p = finish_from p.validation_start w

module _ (json : Json) where
  open json use {Text}

  fail_validation-ends :
      (token : JsString) (source : TokenSource) (e : ApiRequestError) (p : Provider Text)
      → is_kind_aborted e.kind ≡ false
      → is_checking (fail_validation json token source e p).0.shown.phase ≡ false
  unfolding fail_validation reject_token suspend_session
  fail_validation-ends token source e p k = ground (arith, k)

  settle_current_validation-ends :
      (w : World) (parse_path : JsString → Option Url) (token : JsString) (source : TokenSource)
      (reply : Outcome ApiRequestError AuthUser) (p : Provider Text)
      → (fetch_current_user (with_signal false w) parse_path token).1 ≡ reply
      → is_checking (settle_current_validation json token source reply p).0.shown.phase ≡ false
  unfolding accept_user
  settle_current_validation-ends w parse_path token source (ok user) p e = refl
  settle_current_validation-ends w parse_path token source (throw x) p e =
      fail_validation-ends token source x p (fetch_current_user-unaborted w parse_path token x e)

  module _ (lower : JsString → JsString) (parse_path : JsString → Option Url) where
    abbrev pub mounted_start : AuthState Text → Provider Text
    mounted_start s = (step json lower parse_path mounted (start json s)).0

    settle_job-ends :
        (job : Job) (t : Task) (w : World) (p : Provider Text)
        → (t.generation == p.generation) ≡ true
        → t.aborted ≡ false
        → is_validation (some job) ≡ true
        → is_checking (settle_job json lower parse_path job t w p).0.shown.phase ≡ false
    unfolding settle_job
    settle_job-ends (requesting request) t w p e a v = absurd (cc)
    settle_job-ends (validating token source caller) t w p e a v =
        rw (e, a) (settle_current_validation-ends w parse_path token source _ p refl)

    settle_taken-ends :
        (t : Task) (ts : List Task) (w : World) (p : Provider Text)
        → IsNewest p.generation t
        → is_validation (current_of p.generation t) ≡ true
        → is_checking (settle_taken json lower parse_path (some (t, ts)) w p).0.shown.phase ≡ false
    settle_taken-ends t ts w p n v = elim (Bool-cases (t.generation == p.generation)) [
      | inl now ↦
          settle_job-ends t.job t w (record p { in_flight = ts }) now (n.1 ∙ ap not now)
            (ground (arith, v, now))
      | inr old ↦ absurd (ground arith)
    ]

    settle_first-ends :
        (ts : List Task) (w : World) (p : Provider Text)
        → p.in_flight ≡ ts
        → IsFlight p.generation ts
        → is_validation (current_job p.generation ts) ≡ true
        → is_checking (step json lower parse_path (settled 0 w) p).0.shown.phase ≡ false
    unfolding step take_task
    settle_first-ends [] w p e f v = absurd (cc)
    settle_first-ends (t ∷ ts) w p e f v =
        subst
          (λ us.
            is_checking (settle_taken json lower parse_path (take_task 0 us) w p).0.shown.phase
            ≡ false)
          (sym e) (settle_taken-ends t ts w p f.0 v)

    settle_newest-ends :
        (w : World) (p : Provider Text)
        → IsSound p
        → is_validation (current_job p.generation p.in_flight) ≡ true
        → is_checking (step json lower parse_path (settled 0 w) p).0.shown.phase ≡ false
    settle_newest-ends w p (shown, stored, ordered) v =
        settle_first-ends p.in_flight w p refl ordered.flight v

    -- A session that is checked has a token, so that the timer starts a validation.
    validate_token_of-begins :
        (token : Option JsString) (source : Option TokenSource) (p : Provider Text)
        → is_given token ≡ true
        → is_given source ≡ true
        → let q = (validate_token_of json nobody token source p).0 in
          is_validation (current_job q.generation q.in_flight) ≡ true
    unfolding begin_request
    validate_token_of-begins (some t) (some s) p a b = ground arith
    validate_token_of-begins none source p a b = absurd (cc)
    validate_token_of-begins (some t) none p a b = absurd (cc)

    checking-has_token :
        (p : Provider Text)
        → IsShown p
        → is_checking p.shown.phase ≡ true
        → (is_given p.token ≡ true) × (is_given p.source ≡ true)
    checking-has_token p h c = ground (arith, h)

    start_validation-begins :
        (p : Provider Text)
        → IsShown p
        → is_checking p.shown.phase ≡ true
        → p.validation_start ≡ true
        → let q = (start_validation json p).0 in
          is_validation (current_job q.generation q.in_flight) ≡ true
    unfolding start_validation validate_current_session
    start_validation-begins p h c v =
        let (a, b) = checking-has_token p h c in
        rw v (validate_token_of-begins p.token p.source (record p { validation_start = false }) a b)

    finish_ends :
        (pending : Bool) (w : World) (p : Provider Text)
        → p.validation_start ≡ pending
        → IsSound p
        → IsBusy p
        → is_checking p.shown.phase ≡ true
        → is_checking (run json lower parse_path (finish_from pending w) p).shown.phase ≡ false
    unfolding run step
    finish_ends true w p e s b c =
        settle_newest-ends w (step json lower parse_path validation_due p).0
          (step-IsSound json lower parse_path validation_due p s)
          (start_validation-begins p s.0 c e)
    finish_ends false w p e s b c = settle_newest-ends w p s (ground (arith, b, c, e))

    -- From the first render on, where the provider stays mounted and credentials are sent only while no
    -- session is checked: whenever the check of a session is shown, the timer that starts it, if it is still
    -- pending, and one answer of the network end it, whatever the answer is and whatever happened before.
    pub start_ends :
        (es : List Event) (w : World) (s : AuthState Text)
        → IsSafe s
        → IsOrderly json lower parse_path es (mounted_start s)
        → is_checking (run json lower parse_path es (mounted_start s)).shown.phase ≡ true
        → let p = run json lower parse_path es (mounted_start s) in
          is_checking (run json lower parse_path (finish w p) p).shown.phase ≡ false
    start_ends es w s h o c =
        let q = mounted_start s in
        let sound =
          step-IsSound json lower parse_path mounted (start json s) (start-IsSound json s h) in
        finish_ends _ w (run json lower parse_path es q) refl
          (run-IsSound json lower parse_path es q sound)
          (run-IsBusy json lower parse_path es q o sound (start-IsBusy json lower parse_path s)) c
