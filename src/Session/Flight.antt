-- ===== src/Session/Flight.antt =====
-- The calls that have not settled: at most the newest belongs to the current generation, and exactly the
-- others have been aborted.
use restaurant_ordering_anal.Base.{
  ℕ, zero, suc, true, false, not, List, [], ◌∷◌, Option, none, some, if◌then◌else◌, ◌==◌, ◌<◌, ◌≤◌,
  ◌≡◌, All, arith, refl, inl, inr, ◌⊎◌, Option-cases,
}
use restaurant_ordering_anal.Session.State.{Job, Task, abort_controller, abort_active, take_task}

-- A call of an earlier generation.
abbrev pub IsStale : ℕ → Task → Type 0
IsStale g t = (t.generation < g) × (t.aborted ≡ true)

abbrev pub IsNewest : ℕ → Task → Type 0
IsNewest g t = (t.generation ≤ g) × (t.aborted ≡ not (t.generation == g))

abbrev pub IsFlight : ℕ → List Task → Type 0
IsFlight g [] = Unit {0}
IsFlight g (t ∷ ts) = IsNewest g t × All (IsStale g) ts

-- The job of the current generation, if one is under way.
abbrev pub current_of : ℕ → Task → Option Job
current_of g t = if t.generation == g then some t.job else none

abbrev pub current_job : ℕ → List Task → Option Job
current_job g [] = none
current_job g (t ∷ ts) = current_of g t

pub stale-IsFlight :
    (g : ℕ) (ts : List Task) → All (IsStale g) ts → IsFlight g ts × (current_job g ts ≡ none)
stale-IsFlight g [] s = (tt, refl)
stale-IsFlight g (t ∷ ts) s = ground arith

IsStale-suc : (g : ℕ) (ts : List Task) → All (IsStale g) ts → All (IsStale (suc g)) ts
IsStale-suc g [] s = tt
IsStale-suc g (t ∷ ts) s = (ground arith, IsStale-suc g ts s.1)

abort_controller-IsStale :
    (c g : ℕ) (ts : List Task) → All (IsStale g) ts → All (IsStale g) (abort_controller c ts)
unfolding abort_controller
abort_controller-IsStale c g [] s = tt
abort_controller-IsStale c g (t ∷ ts) s = (ground arith, abort_controller-IsStale c g ts s.1)

-- Once the active controller is aborted and the generation has moved on, every call is stale.
pub abort_active-IsStale :
    (c : Option ℕ) (g : ℕ) (ts : List Task)
    → IsFlight g ts
    → (current_job g ts ≡ none) ⊎ (c ≡ some g)
    → All (IsStale (suc g)) (abort_active c ts)
unfolding abort_controller
abort_active-IsStale none g [] f k = tt
abort_active-IsStale (some c) g [] f k = tt
abort_active-IsStale none g (t ∷ ts) f k = ground (arith, IsStale-suc g ts f.1)
abort_active-IsStale (some c) g (t ∷ ts) f k =
    ground (arith, abort_controller-IsStale c (suc g) ts (IsStale-suc g ts f.1))

-- A call that is taken from stale calls is stale, and so are the others.
pub take-IsStale :
    (i g : ℕ) (ts : List Task) (t : Task) (rest : List Task)
    → All (IsStale g) ts
    → take_task i ts ≡ some (t, rest)
    → IsStale g t × All (IsStale g) rest
unfolding take_task
take-IsStale i g [] t rest s e = absurd (cc)
take-IsStale zero g (u ∷ us) t rest s e = ground arith
take-IsStale (suc i) g (u ∷ us) t rest s e = elim (Option-cases (take_task i us)) [
  | inl n ↦ absurd (ground arith)
  | inr ((v, vs), m) ↦ ground (arith, take-IsStale i g us v vs s.1 m)
]

-- A call that settles is stale, and the newest one stays, or it was the newest.
pub take_task-cases :
    (i g : ℕ) (ts : List Task) (t : Task) (rest : List Task)
    → IsFlight g ts
    → take_task i ts ≡ some (t, rest)
    → ((t.generation == g) ≡ false × IsFlight g rest × (current_job g rest ≡ current_job g ts))
      ⊎ ((current_job g ts ≡ current_of g t) × IsNewest g t × All (IsStale g) rest)
unfolding take_task
take_task-cases i g [] t rest f e = absurd (cc)
take_task-cases zero g (u ∷ us) t rest f e = inr (ground arith)
take_task-cases (suc i) g (u ∷ us) t rest f e = elim (Option-cases (take_task i us)) [
  | inl n ↦ absurd (ground arith)
  | inr ((v, vs), m) ↦ inl (ground (arith, take-IsStale i g us v vs f.1 m))
]
