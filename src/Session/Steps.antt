-- ===== src/Session/Steps.antt =====
-- The events that reach `AuthProvider` of frontend/src/features/auth/AuthContext.tsx, in any order.
use restaurant_ordering_anal.Base.{ℕ, Bool, List, [], ◌∷◌, Option, none, some, JsString, ◌==◌}
use restaurant_ordering_anal.Js.{Json}
use restaurant_ordering_anal.Api.Config.{Url}
use restaurant_ordering_anal.Api.Exchange.{World}
use restaurant_ordering_anal.Session.Users.{TokenRequest, request_auth_token, fetch_current_user}
use restaurant_ordering_anal.Session.State.{
  Caller, Job, requesting, validating, Task, Provider, take_task,
}
use restaurant_ordering_anal.Session.Outcomes.{nothing, answer_to, ValidationResult}
use restaurant_ordering_anal.Session.Provider.{
  Call, settle_validation, settle_request, establish_credentials, retry_session,
  refresh_current_user, clear_session, invalidate_session_if_current, start_effect, clean_up,
  start_validation,
}

-- `settled i w`: the i-th unsettled call is answered by the network `w`.
pub data Event : Type 0 where
  mounted unmounted validation_due retry refresh logout : Event
  invalidate : JsString → ℕ → Event
  sign_in : TokenRequest → Event
  settled : ℕ → World → Event

-- The network as a call with this abort signal meets it.
abbrev pub with_signal : Bool → World → World
with_signal stop w = record w {
  fetch = λ request. record (w.fetch request) { signal_aborted = stop };
}

-- `toLowerCase` and `new URL(path, PATH_VALIDATION_ORIGIN)` are `lower` and `parse_path`.
module _ (json : Json) (lower : JsString → JsString) (parse_path : JsString → Option Url) where
  open json use {Text}

  abbrev pub answered : Caller → Provider Text × ValidationResult → Call json
  answered caller (p, result) = (p, answer_to caller result)

  unfoldable pub settle_job : Job → Task → World → Provider Text → Call json
  settle_job (requesting request) t w p =
      settle_request json (t.generation == p.generation) request t
        (request_auth_token (with_signal t.aborted w) lower request).1 p
  settle_job (validating token source caller) t w p = answered caller (
      settle_validation json (t.generation == p.generation) token source
        (fetch_current_user (with_signal t.aborted w) parse_path token).1 p)

  abbrev pub settle_taken : Option (Task × List Task) → World → Provider Text → Call json
  settle_taken none w p = (p, nothing)
  settle_taken (some (t, ts)) w p = settle_job t.job t w (record p { in_flight = ts })

  unfoldable pub step : Event → Provider Text → Call json
  step mounted p = (start_effect json p, nothing)
  step unmounted p = (clean_up json p, nothing)
  step validation_due p = start_validation json p
  step retry p = retry_session json p
  step refresh p = refresh_current_user json p
  step logout p = (clear_session json p, nothing)
  step (invalidate token generation) p =
      (invalidate_session_if_current json token generation p, nothing)
  step (sign_in request) p = establish_credentials json request p
  step (settled i w) p = settle_taken (take_task i p.in_flight) w p

  unfoldable pub run : List Event → Provider Text → Provider Text
  run [] p = p
  run (e ∷ es) p = run es (step e p).0
