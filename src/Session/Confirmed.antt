-- ===== src/Session/Confirmed.antt =====
-- A user is shown as signed in only where the API has named the user for the token.
use restaurant_ordering_anal.Base.{
  ℕ, Bool, List, [], ◌∷◌, Option, none, some, JsString, ◌≡◌, ◌≢◌, inl, inr, ◌⊎◌, ok,
}
use restaurant_ordering_anal.Js.{Json}
use restaurant_ordering_anal.Api.Config.{Url}
use restaurant_ordering_anal.Api.Exchange.{World}
use restaurant_ordering_anal.Auth.Tokens.{AuthState}
use restaurant_ordering_anal.Auth.Memory.{IsSafe}
use restaurant_ordering_anal.Session.Users.{AuthUser, fetch_current_user}
use restaurant_ordering_anal.Session.State.{Provider, start, start_canonical, start_legacy}
use restaurant_ordering_anal.Session.Steps.{Event, settled, with_signal, step, run}
use restaurant_ordering_anal.Session.Sound.{IsSound}
use restaurant_ordering_anal.Session.Reached.{step-IsSound}
use restaurant_ordering_anal.Session.Views.{
  View, in_as, view, Moves, stay, log_out, invalidated, recheck, admit, confirm, refuse, suspend,
  step-Moves,
}
use restaurant_ordering_anal.Session.Signed.{start-IsSound}

module _ (parse_path : JsString → Option Url) where
  -- One of the events is an answer of the network to a request for the user of this token, and it names
  -- this user.
  pub data Confirms (token : JsString) (user : AuthUser) : List Event → Type 0 where
    here :
        (i : ℕ) (w : World) (stop : Bool) (es : List Event)
        → (fetch_current_user (with_signal stop w) parse_path token).1 ≡ ok user
        → Confirms token user (settled i w ∷ es)
    there : (e : Event) (es : List Event) → Confirms token user es → Confirms token user (e ∷ es)

  entered :
      (lower : JsString → JsString) (e : Event) (v v' : View) (token : JsString) (user : AuthUser)
      (es : List Event)
      → Moves lower parse_path e v v'
      → v' ≡ in_as token user
      → (v ≡ in_as token user) ⊎ Confirms token user (e ∷ es)
  entered lower e v v' token user es (stay _ _) q = inl q
  entered lower e v v' token user es (log_out _) q = absurd (cc)
  entered lower e v v' token user es (invalidated _ _ _) q = absurd (cc)
  entered lower e v v' token user es (recheck _ _) q = absurd (cc)
  entered lower e v v' token user es (admit _ _ _ _ _ _ _) q = absurd (cc)
  entered lower e v v' token user es (confirm i w u t stop x n h) q = inr (here i w stop es (cc))
  entered lower e v v' token user es (refuse _ _ _ _ _ _ _ _) q = absurd (cc)
  entered lower e v v' token user es (suspend _ _ _ _ _ _ _ _ _) q = absurd (cc)

module _ (json : Json) where
  open json use {Text}

  start_legacy-unseen :
      (s : AuthState Text) (stored : Option JsString) (token : JsString) (user : AuthUser)
      → view (start_legacy json s stored).shown ≢ in_as token user
  start_legacy-unseen s none token user e = absurd (cc)
  start_legacy-unseen s (some t) token user e = absurd (cc)

  start_canonical-unseen :
      (s : AuthState Text) (stored : Option JsString) (token : JsString) (user : AuthUser)
      → view (start_canonical json s stored).shown ≢ in_as token user
  start_canonical-unseen s none token user e = start_legacy-unseen _ _ token user e
  start_canonical-unseen s (some t) token user e = absurd (cc)

  start_unseen :
      (s : AuthState Text) (token : JsString) (user : AuthUser)
      → view (start json s).shown ≢ in_as token user
  unfolding start
  start_unseen s token user e = start_canonical-unseen _ _ token user e

  module _ (lower : JsString → JsString) (parse_path : JsString → Option Url) where
    run-Confirms :
        (es : List Event) (p : Provider Text) (token : JsString) (user : AuthUser)
        → IsSound p
        → view (run json lower parse_path es p).shown ≡ in_as token user
        → (view p.shown ≡ in_as token user) ⊎ Confirms parse_path token user es
    unfolding run
    run-Confirms [] p token user h e = inl e
    run-Confirms (x ∷ es) p token user h e =
        let q = (step json lower parse_path x p).0 in
        elim (run-Confirms es q token user (step-IsSound json lower parse_path x p h) e) [
          | inl shown ↦
              entered parse_path lower x (view p.shown) (view q.shown) token user es
                (step-Moves json lower parse_path x p h) shown
          | inr later ↦ inr (there x es later)
        ]

    -- From the first render on, whatever the storage holds and in whatever order answers come: where a user
    -- is shown as signed in with a token, the API has answered a request for the user of that very token,
    -- made after the page was loaded, and has named that user. A token from the storage alone signs
    -- nobody in. The page starts with memories that are empty or hold well-formed tokens.
    pub start-Confirms :
        (es : List Event) (s : AuthState Text) (token : JsString) (user : AuthUser)
        → IsSafe s
        → view (run json lower parse_path es (start json s)).shown ≡ in_as token user
        → Confirms parse_path token user es
    start-Confirms es s token user h e =
        elim (run-Confirms es (start json s) token user (start-IsSound json s h) e) [
          | inl shown ↦ absurd (start_unseen s token user shown)
          | inr confirmed ↦ confirmed
        ]
