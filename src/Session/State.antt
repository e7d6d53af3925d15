-- ===== src/Session/State.antt =====
-- frontend/src/features/auth/AuthContext.tsx: what `AuthProvider` keeps, and how it starts.
use restaurant_ordering_anal.Base.{
  ℕ, zero, suc, Bool, true, false, List, [], ◌∷◌, Option, none, some, JsString, if◌then◌else◌, ◌==◌,
}
use restaurant_ordering_anal.Js.{Json}
use restaurant_ordering_anal.Auth.Tokens.{AuthState, load_auth_token, load_legacy_auth_token}
use restaurant_ordering_anal.Auth.Markers.{load_demo_session_marker, clear_demo_session_marker}
use restaurant_ordering_anal.Session.Users.{AuthUser, TokenRequest}

pub data AuthPhase : Type 0 where
  signed_in checking_session temporarily_unavailable signed_out : AuthPhase

pub data TokenSource : Type 0 where
  canonical legacy : TokenSource

-- The state that React shows (`AuthState` of the source).
pub record Shown : Type 0 where
  pub access_token : Option JsString
  pub is_demo_session : Bool
  pub phase : AuthPhase
  pub user : Option AuthUser

-- Who awaits a validation: the effect or `retrySession`, `refreshCurrentUser`, or the second half of
-- `establishCredentials`.
pub data Caller : Type 0 where
  nobody refreshing establishing : Caller

-- What an unsettled promise was created for: a token for credentials, or the user of a token.
pub data Job : Type 0 where
  requesting : TokenRequest → Job
  validating : JsString → TokenSource → Caller → Job

-- One asynchronous call, with the generation it belongs to. Its controller is the one that
-- `beginRequest` made for that generation; `aborted` says whether it has been aborted.
pub record Task : Type 0 where
  pub generation : ℕ
  pub aborted : Bool
  pub job : Job

-- The refs of the provider, the calls that have not settled, whether the timer that starts the first
-- validation is pending, and what is shown. A controller is named by its generation.
pub record Provider (Text : Type 0) : Type 0 where
  pub storage : AuthState Text
  pub initial_token : Option JsString
  pub token : Option JsString
  pub source : Option TokenSource
  pub demo_session : Bool
  pub active_controller : Option ℕ
  pub generation : ℕ
  pub session_generation : ℕ
  pub in_flight : List Task
  pub validation_start : Bool
  pub shown : Shown

abbrev pub nobody_shown : Shown
nobody_shown = record {
  access_token = none;
  is_demo_session = false;
  phase = signed_out;
  user = none;
}

abbrev pub with_phase : JsString → Bool → AuthPhase → Option AuthUser → Shown
with_phase token demo phase user = record {
  access_token = some token;
  is_demo_session = demo;
  phase = phase;
  user = user;
}

-- `controller?.abort()`, seen from the calls that listen to that controller.
abbrev pub marked : Bool → Task → Task
marked stop t = if stop then record t { aborted = true } else t

unfoldable pub abort_controller : ℕ → List Task → List Task
abort_controller c [] = []
abort_controller c (t ∷ ts) = marked (t.generation == c) t ∷ abort_controller c ts

abbrev pub abort_active : Option ℕ → List Task → List Task
abort_active none ts = ts
abort_active (some c) ts = abort_controller c ts

-- The i-th unsettled call, and the others.
abbrev pub behind : Task → Option (Task × List Task) → Option (Task × List Task)
behind t none = none
behind t (some (u, us)) = some (u, t ∷ us)

unfoldable pub take_task : ℕ → List Task → Option (Task × List Task)
take_task i [] = none
take_task zero (t ∷ ts) = some (t, ts)
take_task (suc i) (t ∷ ts) = behind t (take_task i ts)

module _ (json : Json) where
  open json use {Text}

  abbrev pub start_with :
      AuthState Text → Option JsString → Option TokenSource → Bool → Provider Text
  start_with storage token source demo = record {
    storage = storage;
    initial_token = token;
    token = token;
    source = source;
    demo_session = demo;
    active_controller = none;
    generation = 0;
    session_generation = generation_of token;
    in_flight = [];
    validation_start = false;
    shown = initially token demo;
  }
    where
      generation_of : Option JsString → ℕ
      generation_of none = 0
      generation_of (some t) = 1

      initially : Option JsString → Bool → Shown
      initially none demo = record nobody_shown { is_demo_session = demo }
      initially (some t) demo = with_phase t demo checking_session none

  -- `loadInitialSession`, and the refs and the state made from it.
  abbrev pub start_legacy : AuthState Text → Option JsString → Provider Text
  start_legacy storage none = start_with storage none none false
  start_legacy storage (some token) = start_with storage (some token) (some legacy) false

  abbrev pub start_canonical : AuthState Text → Option JsString → Provider Text
  start_canonical storage none =
      let (storage', token) =
        load_legacy_auth_token json (clear_demo_session_marker json storage).0 in
      start_legacy storage' token
  start_canonical storage (some token) =
      let (storage', demo) = load_demo_session_marker json storage in
      start_with storage' (some token) (some canonical) demo

  unfoldable pub start : AuthState Text → Provider Text
  start storage =
      let (storage', token) = load_auth_token json storage in start_canonical storage' token
