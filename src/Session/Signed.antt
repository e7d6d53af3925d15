-- ===== src/Session/Signed.antt =====
-- `AuthProvider` from its first render on: what a session that is shown as signed in stands for.
use restaurant_ordering_anal.Base.{
  true, false, List, Option, none, some, JsString, ◌≡◌, refl, arith, ◌∙◌, subst, ap, sym,
}
use restaurant_ordering_anal.Js.{Json}
use restaurant_ordering_anal.Api.Config.{Url}
use restaurant_ordering_anal.Auth.Tokens.{
  AuthState, auth_storage_key, legacy_auth_storage_key, is_access_token, load_auth_token,
  load_legacy_auth_token,
}
use restaurant_ordering_anal.Auth.Markers.{load_demo_session_marker, clear_demo_session_marker}
use restaurant_ordering_anal.Auth.Memory.{IsKept, IsSafe, load_token-IsKept}
use restaurant_ordering_anal.Session.Users.{AuthUser}
use restaurant_ordering_anal.Session.State.{
  AuthPhase, signed_in, canonical, Provider, start_with, start_legacy, start_canonical, start,
  with_phase,
}
use restaurant_ordering_anal.Session.Steps.{Event, run}
use restaurant_ordering_anal.Session.Sound.{is_signed_in, is_given, IsSound}
use restaurant_ordering_anal.Session.Reached.{run-IsSound}

-- A session that is signed in: one kept token with one user, shown, held and remembered alike.
pub record IsSession {Text : Type 0} (p : Provider Text) (token : JsString) (user : AuthUser)
    : Type 0 where
  pub shown : p.shown ≡ with_phase token p.demo_session signed_in (some user)
  pub held : p.token ≡ some token
  pub kept : is_access_token token ≡ true
  pub source : p.source ≡ some canonical
  pub auth : p.storage.auth_memory_token ≡ some (some token)
  pub legacy : p.storage.legacy_memory_token ≡ some none
  pub marked : p.storage.demo_session_memory ≡ some p.demo_session

module _ (json : Json) where
  open json use {Text}

  start_none-IsSound : (s : AuthState Text) → IsSound (start_with json s none none false)
  start_none-IsSound s = (ground arith, ground arith, ground arith)

  start_legacy-IsSound :
      (s : AuthState Text) (token : Option JsString)
      → IsKept token
      → IsSound (start_legacy json s token)
  start_legacy-IsSound s none k = start_none-IsSound s
  start_legacy-IsSound s (some token) k = (ground arith, ground (arith, k), ground arith)

  start_canonical-IsSound :
      (s : AuthState Text) (token : Option JsString)
      → IsKept token
      → IsSafe s
      → s.auth_memory_token ≡ some token
      → IsSound (start_canonical json s token)
  unfolding load_legacy_auth_token load_demo_session_marker clear_demo_session_marker
  start_canonical-IsSound s none k h m =
      start_legacy-IsSound _ _
        (load_token-IsKept json _ legacy_auth_storage_key s.legacy_memory_token h.legacy)
  start_canonical-IsSound s (some token) k h m = (ground arith, ground (arith, k, m), ground arith)

  pub start-IsSound : (s : AuthState Text) → IsSafe s → IsSound (start json s)
  unfolding start load_auth_token
  start-IsSound s h =
      let kept = load_token-IsKept json s.session auth_storage_key s.auth_memory_token h.auth in
      start_canonical-IsSound _ _ kept (record { auth = kept; legacy = h.legacy }) refl

  is_signed_in-phase : (phase : AuthPhase) → is_signed_in phase ≡ true → phase ≡ signed_in
  is_signed_in-phase phase e = ground arith

  given : {A : Type 0} → (o : Option A) → is_given o ≡ true → (a : A) × (o ≡ some a)
  given none e = absurd (cc)
  given (some a) e = (a, refl)

  -- What the invariant says of a session that is shown as signed in.
  signed_in-IsSession :
      (p : Provider Text)
      → IsSound p
      → is_signed_in p.shown.phase ≡ true
      → (token : JsString) × (user : AuthUser) × IsSession p token user
  signed_in-IsSession p (shown, stored, ordered) e =
      let phase = is_signed_in-phase p.shown.phase e in
      let (user, u) = given p.shown.user (shown.user ∙ e) in
      let (token, t) = given p.token (ground (arith, shown.out)) in
      (
        token,
        user,
        record {
          shown = rw (sym (shown.token ∙ t), sym shown.demo, sym phase, sym u) refl;
          held = t;
          kept = subst IsKept t stored.kept;
          source = stored.confirmed e;
          auth = stored.canonical_token (stored.confirmed e) ∙ ap some t;
          legacy = stored.no_legacy e;
          marked = stored.marked e;
        },
      )

  module _ (lower : JsString → JsString) (parse_path : JsString → Option Url) where
    -- From the first render on, after any events in any order, with any answers of the network: a session
    -- that is shown as signed in has one token and one user; its token is neither blank nor does it hold
    -- white space, is the one shown and the one in the refs, and the module's memory holds it as the
    -- canonical token, no legacy token, and whether it is a demo session. The page starts with memories
    -- that are empty or hold tokens of that form.
    pub run-IsSession :
        (es : List Event) (s : AuthState Text)
        → IsSafe s
        → is_signed_in (run json lower parse_path es (start json s)).shown.phase ≡ true
        → (token : JsString) × (user : AuthUser) × IsSession
            (run json lower parse_path es (start json s))
            token
            user
    run-IsSession es s h e =
        signed_in-IsSession (run json lower parse_path es (start json s))
          (run-IsSound json lower parse_path es (start json s) (start-IsSound s h)) e
