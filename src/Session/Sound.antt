-- ===== src/Session/Sound.antt =====
-- What holds of `AuthProvider` between two events.
use restaurant_ordering_anal.Base.{
  suc, Bool, true, false, not, Option, none, some, JsString, ◌≡◌, All, arith, refl, inl, inr, ◌⊎◌,
  ==_iff,
}
use restaurant_ordering_anal.Js.{Json}
use restaurant_ordering_anal.Auth.Tokens.{
  is_access_token, save_auth_token, clear_auth_token, clear_legacy_auth_token,
}
use restaurant_ordering_anal.Auth.Markers.{save_demo_session_marker, clear_demo_session_marker}
use restaurant_ordering_anal.Auth.Memory.{IsKept}
use restaurant_ordering_anal.Session.Users.{AuthUser, AuthTokenResponse, TokenRequest}
use restaurant_ordering_anal.Session.State.{
  AuthPhase, signed_in, checking_session, signed_out, TokenSource, canonical, Job, requesting,
  validating, Task, Provider, nobody_shown, with_phase, abort_active,
}
use restaurant_ordering_anal.Session.Provider.{
  show, begin_request, clear_session, accept_user, reject_token, suspend_session, accept_token,
  start_effect, clean_up,
}
use restaurant_ordering_anal.Session.Flight.{
  IsStale, IsFlight, current_job, stale-IsFlight, abort_active-IsStale,
}

abbrev pub is_given : {A : Type 0} → Option A → Bool
is_given none = false
is_given (some a) = true

abbrev pub is_signed_in : AuthPhase → Bool
is_signed_in signed_in = true
is_signed_in _ = false

abbrev pub is_signed_out : AuthPhase → Bool
is_signed_out signed_out = true
is_signed_out _ = false

-- A validation under way is one of the token and the source that the refs hold.
abbrev pub IsCurrent : Option JsString → Option TokenSource → Option Job → Type 0
IsCurrent token source none = Unit {0}
IsCurrent token source (some (requesting request)) = Unit {0}
IsCurrent token source (some (validating t s caller)) = (token ≡ some t) × (source ≡ some s)

module _ {Text : Type 0} where
  -- What is shown agrees with the refs.
  pub record IsShown (p : Provider Text) : Type 0 where
    pub token : p.shown.access_token ≡ p.token
    pub source : is_given p.source ≡ is_given p.token
    pub out : is_signed_out p.shown.phase ≡ not (is_given p.token)
    pub user : is_given p.shown.user ≡ is_signed_in p.shown.phase
    pub demo : p.shown.is_demo_session ≡ p.demo_session
    pub no_demo : is_given p.token ≡ false → p.demo_session ≡ false

  -- What is remembered agrees with the refs.
  pub record IsStored (p : Provider Text) : Type 0 where
    pub kept : IsKept p.token
    pub canonical_token : p.source ≡ some canonical → p.storage.auth_memory_token ≡ some p.token
    pub confirmed : is_signed_in p.shown.phase ≡ true → p.source ≡ some canonical
    pub marked :
        is_signed_in p.shown.phase ≡ true → p.storage.demo_session_memory ≡ some p.demo_session
    pub no_legacy : is_signed_in p.shown.phase ≡ true → p.storage.legacy_memory_token ≡ some none

  pub record IsOrdered (p : Provider Text) : Type 0 where
    pub flight : IsFlight p.generation p.in_flight
    pub active :
        (current_job p.generation p.in_flight ≡ none) ⊎ (p.active_controller ≡ some p.generation)
    pub current : IsCurrent p.token p.source (current_job p.generation p.in_flight)

  abbrev pub IsSound : Provider Text → Type 0
  IsSound p = IsShown p × IsStored p × IsOrdered p

module _ (json : Json) where
  open json use {Text}

  -- Once the active controller is aborted and the generation has moved on, no call is current.
  pub superseded-idle :
      (p : Provider Text)
      → IsOrdered p
      → All (IsStale (suc p.generation)) (abort_active p.active_controller p.in_flight)
  superseded-idle p o =
      abort_active-IsStale p.active_controller p.generation p.in_flight o.flight o.active

  -- A provider whose calls are all stale.
  pub idle-IsOrdered : (p : Provider Text) → All (IsStale p.generation) p.in_flight → IsOrdered p
  idle-IsOrdered p idle =
      let (flight, none_current) = stale-IsFlight p.generation p.in_flight idle in
      record { flight = flight; active = inl none_current; current = rw none_current tt }

  pub begin_request-IsSound :
      (job : Job) (p : Provider Text)
      → IsCurrent p.token p.source (some job)
      → IsSound p
      → IsSound (begin_request json job p)
  unfolding begin_request
  begin_request-IsSound job p c (shown, stored, ordered) = (
    ground (arith, shown),
    ground (arith, stored),
    record {
      flight = (ground arith, superseded-idle p ordered);
      active = inr refl;
      current = ground (arith, c);
    },
  )

  pub clear_session-IsSound : (p : Provider Text) → IsSound p → IsSound (clear_session json p)
  unfolding clear_session clear_auth_token clear_legacy_auth_token clear_demo_session_marker
  clear_session-IsSound p (shown, stored, ordered) = (
    ground arith,
    ground arith,
    idle-IsOrdered (clear_session json p) (superseded-idle p ordered),
  )

  pub clean_up-IsSound : (p : Provider Text) → IsSound p → IsSound (clean_up json p)
  unfolding clean_up
  clean_up-IsSound p (shown, stored, ordered) = (
    ground (arith, shown),
    ground (arith, stored),
    idle-IsOrdered (clean_up json p) (superseded-idle p ordered),
  )

  pub start_effect-IsSound : (p : Provider Text) → IsSound p → IsSound (start_effect json p)
  unfolding start_effect
  start_effect-IsSound p (shown, stored, ordered) =
      (ground (arith, shown), ground (arith, stored), ground (arith, ordered))

  -- Without a token nobody is shown already, in all but the answer.
  pub show_nobody-IsSound :
      (p : Provider Text)
      → is_given p.token ≡ false
      → IsSound p
      → IsSound (show json nobody_shown p)
  show_nobody-IsSound p n (shown, stored, ordered) =
      (ground (arith, shown), ground (arith, stored), ground (arith, ordered))

  pub show_checking-IsSound :
      (p : Provider Text) (token : JsString)
      → p.token ≡ some token
      → IsSound p
      → IsSound (show json (with_phase token p.demo_session checking_session none) p)
  show_checking-IsSound p token e (shown, stored, ordered) =
      (ground (arith, shown), ground (arith, stored), ground (arith, ordered))

  module _ (p : Provider Text) (shown : IsShown p) (stored : IsStored p)
      (idle : All (IsStale p.generation) p.in_flight) where
    pub accept_user-IsSound :
        (token : JsString) (user : AuthUser)
        → p.token ≡ some token
        → IsSound (accept_user json token user p)
    unfolding accept_user save_auth_token clear_legacy_auth_token save_demo_session_marker
        clear_demo_session_marker
    accept_user-IsSound token user e = (
      ground (arith, shown),
      ground (arith, stored),
      idle-IsOrdered (accept_user json token user p) idle,
    )

    pub reject_token-IsSound : (source : TokenSource) → IsSound (reject_token json source p)
    unfolding reject_token clear_auth_token clear_legacy_auth_token clear_demo_session_marker
    reject_token-IsSound source =
        (ground arith, ground arith, idle-IsOrdered (reject_token json source p) idle)

    pub suspend_session-IsSound :
        (token : JsString) (source : TokenSource)
        → p.token ≡ some token
        → p.source ≡ some source
        → IsSound (suspend_session json token source p)
    unfolding suspend_session
    suspend_session-IsSound token source e f = (
      ground (arith, shown),
      ground (arith, stored),
      idle-IsOrdered (suspend_session json token source p) idle,
    )

    pub release-IsSound : IsSound (record p { active_controller = none })
    release-IsSound = (
      ground (arith, shown),
      ground (arith, stored),
      idle-IsOrdered (record p { active_controller = none }) idle,
    )

    pub accept_token-IsSound :
        (request : TokenRequest) (t : Task) (response : AuthTokenResponse)
        → is_access_token response.access_token ≡ true
        → t.generation ≡ p.generation
        → t.aborted ≡ false
        → p.active_controller ≡ some p.generation
        → IsSound (accept_token json request t response p)
    unfolding accept_token save_auth_token save_demo_session_marker clear_demo_session_marker
    accept_token-IsSound request t response k e f active = (
      ground arith,
      ground arith,
      record {
        flight = (ground (arith, ==_iff t.generation p.generation), idle);
        active = inr active;
        current = ground arith;
      },
    )
