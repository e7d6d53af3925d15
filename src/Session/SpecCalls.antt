-- ===== src/Session/SpecCalls.antt =====
-- The calls that count, read off the calls of frontend/src/features/auth/AuthContext.tsx.
use restaurant_ordering_anal.Base.{
  ℕ, zero, suc, List, [], ◌∷◌, Option, none, some, ◌≡◌, All, arith, refl, ap, ◌∙◌,
}
use restaurant_ordering_anal.Session.State.{Task, take_task, abort_controller, abort_active}
use restaurant_ordering_anal.Session.Flight.{IsStale}
use restaurant_ordering_anal.Session.Spec.{
  SpecCall, all_superseded, leave_call, take_call, current_call, calls_of,
}

pub stale_calls :
    (g : ℕ) (ts : List Task) → All (IsStale g) ts → calls_of g ts ≡ all_superseded (calls_of g ts)
stale_calls g [] s = refl
stale_calls g (t ∷ ts) s = ground (arith, stale_calls g ts s.1)

pub superseded-calls_of :
    (g h : ℕ) (ts : List Task) → all_superseded (calls_of g ts) ≡ all_superseded (calls_of h ts)
superseded-calls_of g h [] = refl
superseded-calls_of g h (t ∷ ts) = ap (λ cs. none ∷ cs) (superseded-calls_of g h ts)

superseded-abort_controller :
    (c g : ℕ) (ts : List Task)
    → all_superseded (calls_of g (abort_controller c ts)) ≡ all_superseded (calls_of g ts)
unfolding abort_controller
superseded-abort_controller c g [] = refl
superseded-abort_controller c g (t ∷ ts) = ap (λ cs. none ∷ cs) (superseded-abort_controller c g ts)

pub superseded-abort_active :
    (c : Option ℕ) (g : ℕ) (ts : List Task)
    → all_superseded (calls_of g (abort_active c ts)) ≡ all_superseded (calls_of g ts)
superseded-abort_active none g ts = refl
superseded-abort_active (some c) g ts = superseded-abort_controller c g ts

-- What is read off a taken call.
abbrev pub taken_call :
    ℕ → Option (Task × List Task) → Option (Option SpecCall × List (Option SpecCall))
taken_call g none = none
taken_call g (some (t, ts)) = some (current_call g t, calls_of g ts)

leave-taken_call :
    (g : ℕ) (u : Task) (o : Option (Task × List Task)) (i : ℕ) (us : List Task)
    → take_task i us ≡ o
    → leave_call (current_call g u) (taken_call g o) ≡ taken_call g (take_task (suc i) (u ∷ us))
unfolding take_task
leave-taken_call g u none i us e = ground arith
leave-taken_call g u (some (t, ts)) i us e = ground arith

pub take_call-calls_of :
    (g i : ℕ) (ts : List Task) → take_call i (calls_of g ts) ≡ taken_call g (take_task i ts)
unfolding take_task
take_call-calls_of g i [] = refl
take_call-calls_of g zero (t ∷ ts) = refl
take_call-calls_of g (suc i) (t ∷ ts) =
    ap (leave_call (current_call g t)) (take_call-calls_of g i ts)
    ∙ leave-taken_call g t _ i ts refl
