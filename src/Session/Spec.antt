-- ===== src/Session/Spec.antt =====
-- The session as one would describe it without `AuthProvider`'s controllers, request generations, abort
-- signals and storage: who is held, what is seen, and the calls that may still be answered.
use restaurant_ordering_anal.Base.{
  ℕ, zero, suc, Bool, false, List, [], ◌∷◌, Option, none, some, JsString, if◌then◌else◌, ◌==◌, ◌&&◌,
  str_eq, Outcome, ok, throw,
}
use restaurant_ordering_anal.Api.Errors.{ApiRequestError}
use restaurant_ordering_anal.Api.Config.{Url}
use restaurant_ordering_anal.Api.Exchange.{World}
use restaurant_ordering_anal.Session.Users.{
  AuthUser, AuthTokenResponse, TokenRequest, fetch_current_user, request_auth_token,
}
use restaurant_ordering_anal.Session.State.{Job, requesting, validating, Task, Provider}
use restaurant_ordering_anal.Session.Outcomes.{is_demo, is_http_status}
use restaurant_ordering_anal.Session.Steps.{
  Event, mounted, unmounted, validation_due, retry, refresh, logout, invalidate, sign_in, settled,
  with_signal,
}
use restaurant_ordering_anal.Session.Sound.{is_given}
use restaurant_ordering_anal.Session.Views.{View, out, checking, unavailable, in_as, view}

-- A call whose answer counts: for a token, or for the user of a token.
pub data SpecCall : Type 0 where
  ask : TokenRequest → SpecCall
  check : JsString → SpecCall

-- A call that a later one, a sign-out or the end of the page has superseded is `none`.
pub record Spec : Type 0 where
  pub held : Option JsString
  pub seen : View
  pub demo : Bool
  pub generation : ℕ
  pub start_due : Bool
  pub restored : Bool
  pub calls : List (Option SpecCall)

abbrev pub all_superseded : List (Option SpecCall) → List (Option SpecCall)
all_superseded [] = []
all_superseded (c ∷ cs) = none ∷ all_superseded cs

abbrev pub leave_call :
    Option SpecCall
    → Option (Option SpecCall × List (Option SpecCall))
    → Option (Option SpecCall × List (Option SpecCall))
leave_call c none = none
leave_call c (some (d, ds)) = some (d, c ∷ ds)

abbrev pub take_call :
    ℕ → List (Option SpecCall) → Option (Option SpecCall × List (Option SpecCall))
take_call i [] = none
take_call zero (c ∷ cs) = some (c, cs)
take_call (suc i) (c ∷ cs) = leave_call c (take_call i cs)

abbrev pub holds : Option JsString → JsString → Bool
holds none token = false
holds (some t) token = str_eq t token

abbrev pub spec_sign_out : Spec → Spec
spec_sign_out s = record s {
  held = none;
  seen = out;
  demo = false;
  generation = suc s.generation;
  calls = all_superseded s.calls;
}

abbrev pub spec_call : SpecCall → Spec → Spec
spec_call c s = record s { calls = some c ∷ all_superseded s.calls }

abbrev pub spec_check : Option JsString → Spec → Spec
spec_check none s = record s { seen = out }
spec_check (some token) s = spec_call (check token) s

abbrev pub spec_retry : Option JsString → Spec → Spec
spec_retry none s = record s { seen = out }
spec_retry (some token) s = spec_call (check token) (record s { seen = checking })

abbrev pub spec_refresh : Option JsString → Spec → Spec
spec_refresh none s = spec_sign_out s
spec_refresh (some token) s = spec_call (check token) s

-- A token that has come is held, and its user is asked for.
abbrev pub spec_asked : TokenRequest → Outcome ApiRequestError AuthTokenResponse → Spec → Spec
spec_asked request (throw e) s = s
spec_asked request (ok r) s = record s {
  held = some r.access_token;
  seen = checking;
  demo = is_demo request;
  generation = suc s.generation;
  calls = some (check r.access_token) ∷ s.calls;
}

-- Only a refusal (401) takes the token away.
abbrev pub spec_checked : JsString → Outcome ApiRequestError AuthUser → Spec → Spec
spec_checked token (ok user) s = record s { seen = in_as token user }
spec_checked token (throw e) s =
    if is_http_status 401 e
    then record s { held = none; seen = out; demo = false }
    else record s { seen = unavailable }

module _ (lower : JsString → JsString) (parse_path : JsString → Option Url) where
  abbrev pub spec_settled : World → Option (Option SpecCall × List (Option SpecCall)) → Spec → Spec
  spec_settled w none s = s
  spec_settled w (some (none, rest)) s = record s { calls = rest }
  spec_settled w (some (some (ask request), rest)) s =
      spec_asked request (request_auth_token (with_signal false w) lower request).1
        (record s { calls = rest })
  spec_settled w (some (some (check token), rest)) s =
      spec_checked token (fetch_current_user (with_signal false w) parse_path token).1
        (record s { calls = rest })

  unfoldable pub spec_step : Event → Spec → Spec
  spec_step mounted s = record s { start_due = s.restored }
  spec_step unmounted s = record s { start_due = false; calls = all_superseded s.calls }
  spec_step validation_due s =
      if s.start_due then spec_check s.held (record s { start_due = false }) else s
  spec_step retry s = spec_retry s.held s
  spec_step refresh s = spec_refresh s.held s
  spec_step logout s = spec_sign_out s
  spec_step (invalidate token g) s =
      if holds s.held token && s.generation == g then spec_sign_out s else s
  spec_step (sign_in request) s = spec_call (ask request) s
  spec_step (settled i w) s = spec_settled w (take_call i s.calls) s

  unfoldable pub spec_run : List Event → Spec → Spec
  spec_run [] s = s
  spec_run (e ∷ es) s = spec_run es (spec_step e s)

abbrev pub call_of : Job → SpecCall
call_of (requesting request) = ask request
call_of (validating token source caller) = check token

abbrev pub current_call : ℕ → Task → Option SpecCall
current_call g t = if t.generation == g then some (call_of t.job) else none

abbrev pub calls_of : ℕ → List Task → List (Option SpecCall)
calls_of g [] = []
calls_of g (t ∷ ts) = current_call g t ∷ calls_of g ts

-- What the provider's refs and its calls amount to.
abbrev pub abstract : {Text : Type 0} → Provider Text → Spec
abstract p = record {
  held = p.token;
  seen = view p.shown;
  demo = p.demo_session;
  generation = p.session_generation;
  start_due = p.validation_start;
  restored = is_given p.initial_token;
  calls = calls_of p.generation p.in_flight;
}
