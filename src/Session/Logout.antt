-- ===== src/Session/Logout.antt =====
-- A sign-out is final: no answer that is still on its way brings the session back.
use restaurant_ordering_anal.Base.{
  ℕ, suc, Bool, true, false, List, [], ◌∷◌, Option, none, some, JsString, ◌≡◌, refl, inl, arith,
  All, if-ind,
}
use restaurant_ordering_anal.Js.{Json}
use restaurant_ordering_anal.Api.Config.{Url}
use restaurant_ordering_anal.Api.Exchange.{World}
use restaurant_ordering_anal.Auth.Tokens.{clear_auth_token, clear_legacy_auth_token}
use restaurant_ordering_anal.Auth.Markers.{clear_demo_session_marker}
use restaurant_ordering_anal.Session.State.{
  Provider, Task, TokenSource, nobody_shown, take_task, abort_active,
}
use restaurant_ordering_anal.Session.Provider.{
  Call, clear_session, retry_token_of, refresh_token_of, invalidate_session_if_current,
  start_validation, validate_current_session, start_effect, clean_up, retry_session,
  refresh_current_user, show,
}
use restaurant_ordering_anal.Session.Steps.{
  Event, mounted, unmounted, validation_due, retry, refresh, logout, invalidate, sign_in, settled,
  settle_taken, step, run,
}
use restaurant_ordering_anal.Session.Flight.{
  IsStale, take-IsStale, stale-IsFlight, abort_active-IsStale,
}
use restaurant_ordering_anal.Session.Sound.{IsSound, superseded-idle}
use restaurant_ordering_anal.Session.Reached.{settle_stale}

abbrev pub is_sign_in : Event → Bool
is_sign_in (sign_in request) = true
is_sign_in _ = false

-- Nobody is signed in, and every call under way is stale.
pub record IsOut {Text : Type 0} (p : Provider Text) : Type 0 where
  pub held : p.token ≡ none
  pub source : p.source ≡ none
  pub shown : p.shown ≡ nobody_shown
  pub auth : p.storage.auth_memory_token ≡ some none
  pub legacy : p.storage.legacy_memory_token ≡ some none
  pub marked : p.storage.demo_session_memory ≡ some false
  pub idle : All (IsStale p.generation) p.in_flight

module _ (json : Json) where
  open json use {Text}

  aborted_idle :
      (c : Option ℕ) (g : ℕ) (ts : List Task)
      → All (IsStale g) ts
      → All (IsStale (suc g)) (abort_active c ts)
  aborted_idle c g ts s =
      let (flight, none_current) = stale-IsFlight g ts s in
      abort_active-IsStale c g ts flight (inl none_current)

  cleared-IsOut :
      (p : Provider Text)
      → All (IsStale (suc p.generation)) (abort_active p.active_controller p.in_flight)
      → IsOut (clear_session json p)
  unfolding clear_session clear_auth_token clear_legacy_auth_token clear_demo_session_marker
  cleared-IsOut p s = ground (arith, s)

  clear_session-IsOut : (p : Provider Text) → IsSound p → IsOut (clear_session json p)
  clear_session-IsOut p (shown, stored, ordered) = cleared-IsOut p (superseded-idle json p ordered)

  nobody-IsOut : (p : Provider Text) → IsOut p → IsOut (show json nobody_shown p)
  nobody-IsOut p h = ground (arith, h)

  validate_current_session-IsOut : (p : Provider Text) → IsOut p → IsOut (start_validation json p).0
  unfolding start_validation validate_current_session
  validate_current_session-IsOut p h =
      if-ind {A = Call json} (λ r. IsOut r.0) p.validation_start _ _
        (rw (h.held) (ground (arith, h))) h

  retry_token_of-IsOut :
      (token : Option JsString) (source : Option TokenSource) (p : Provider Text)
      → token ≡ none
      → IsOut p
      → IsOut (retry_token_of json token source p).0
  retry_token_of-IsOut none source p e h = nobody-IsOut p h
  retry_token_of-IsOut (some t) source p e h = absurd (cc)

  refresh_token_of-IsOut :
      (token : Option JsString) (source : Option TokenSource) (p : Provider Text)
      → token ≡ none
      → IsOut p
      → IsOut (refresh_token_of json token source p).0
  refresh_token_of-IsOut none source p e h =
      cleared-IsOut p (aborted_idle p.active_controller p.generation p.in_flight h.idle)
  refresh_token_of-IsOut (some t) source p e h = absurd (cc)

  module _ (lower : JsString → JsString) (parse_path : JsString → Option Url) where
    settle_taken-IsOut :
        (i : ℕ) (w : World) (p : Provider Text) (taken : Option (Task × List Task))
        → take_task i p.in_flight ≡ taken
        → IsOut p
        → IsOut (settle_taken json lower parse_path taken w p).0
    settle_taken-IsOut i w p none e h = h
    settle_taken-IsOut i w p (some (t, ts)) e h =
        let (old, stale) = take-IsStale i p.generation p.in_flight t ts h.idle e in
        rw
          (settle_stale json lower parse_path t.job t w (record p { in_flight = ts })
            (ground arith))
          (ground (arith, h, stale))

    step-IsOut :
        (e : Event) (p : Provider Text)
        → is_sign_in e ≡ false
        → IsOut p
        → IsOut (step json lower parse_path e p).0
    unfolding step retry_session refresh_current_user start_effect clean_up
        invalidate_session_if_current
    step-IsOut mounted p n h = ground (arith, h)
    step-IsOut unmounted p n h =
        ground (arith, h, aborted_idle p.active_controller p.generation p.in_flight h.idle)
    step-IsOut validation_due p n h = validate_current_session-IsOut p h
    step-IsOut retry p n h = retry_token_of-IsOut p.token p.source p h.held h
    step-IsOut refresh p n h = refresh_token_of-IsOut p.token p.source p h.held h
    step-IsOut logout p n h =
        cleared-IsOut p (aborted_idle p.active_controller p.generation p.in_flight h.idle)
    step-IsOut (invalidate token g) p n h =
        if-ind {A = Provider Text} (λ q. IsOut q) _ _ _
          (cleared-IsOut p (aborted_idle p.active_controller p.generation p.in_flight h.idle)) h
    step-IsOut (sign_in request) p n h = absurd (cc)
    step-IsOut (settled i w) p n h = settle_taken-IsOut i w p (take_task i p.in_flight) refl h

    run-IsOut :
        (es : List Event) (p : Provider Text)
        → All (λ e. is_sign_in e ≡ false) es
        → IsOut p
        → IsOut (run json lower parse_path es p)
    unfolding run
    run-IsOut [] p n h = h
    run-IsOut (e ∷ es) p n h =
        run-IsOut es (step json lower parse_path e p).0 n.1 (step-IsOut e p n.0 h)

    -- After a sign-out, whatever happens but a new sign-in (answers of requests that were under way
    -- included, in any order): no token is held, nobody is shown, and the module's memory holds no token
    -- and no mark of a demo session.
    pub run-logout :
        (es : List Event) (p : Provider Text)
        → IsSound p
        → All (λ e. is_sign_in e ≡ false) es
        → IsOut (run json lower parse_path (logout ∷ es) p)
    unfolding run step
    run-logout es p h n = run-IsOut es (clear_session json p) n (clear_session-IsOut p h)
