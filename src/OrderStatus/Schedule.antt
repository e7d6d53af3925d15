-- ===== src/OrderStatus/Schedule.antt =====
-- When the next poll is sent, and when none is.
use restaurant_ordering_anal.Base.{
  ℕ, zero, suc, ◌≤◌, Bool, true, false, ◌&&◌, List, [], ◌∷◌, none, ◌≡◌, refl, ◌≢◌, inl, ◌⊎◌, arith,
  All, ◌∙◌,
}
use restaurant_ordering_anal.Orders.Status.{OrderStatusResponse}
use restaurant_ordering_anal.OrderStatus.Polling.{
  PollingOptions, Polling, Event, microtask, timer_fired, retry, cleanup, fetched, failed,
  environment, is_some, has_credential, mount, request_status, on_microtask, on_response,
  on_failure, retry_now, handle_environment_change, unmount, step, run, schedule, classified,
  transient_retry_delay, is_terminal_status,
}
use restaurant_ordering_anal.OrderStatus.Safety.{IsSound, mount-IsSound, step-IsSound, delay_after}

-- The delays between polls lie between 8 and 30 seconds, and do not fall while failures add up.
pub delay_after_bounds :
    (n : ℕ)
    → (8000 ≤ delay_after n) × (delay_after n ≤ 30000) × (delay_after n ≤ delay_after (suc n))
unfolding transient_retry_delay
delay_after_bounds zero = ground arith
delay_after_bounds (suc n) = ground arith

module _ (o : PollingOptions) where
  -- An effect that has ended, with nothing pending.
  abbrev pub IsOver : Polling → Type 0
  IsOver p = (p.active ≡ false) × (p.timer ≡ none) × (p.attached ≡ false)

  abbrev pub Quiet : Polling → Polling → Type 0
  Quiet p q = (q.requests ≡ p.requests) × (q.unauthorized ≡ p.unauthorized) × (q.shown ≡ p.shown)

  step-IsOver : (e : Event) (p : Polling) → IsOver p → IsOver (step o e p) × Quiet p (step o e p)
  unfolding step on_microtask on_response on_failure unmount
  step-IsOver microtask p s = ground (arith, s)
  step-IsOver timer_fired p s = ground (arith, s)
  step-IsOver retry p s = ground (arith, s)
  step-IsOver cleanup p s = ground (arith, s)
  step-IsOver (fetched r) p s = ground (arith, s)
  step-IsOver (failed e) p s = ground (arith, s)
  step-IsOver (environment b) p s = ground (arith, s)

  run_over : (es : List Event) (p : Polling) → IsOver p → Quiet p (run o es p)
  unfolding run
  run_over [] p s = (refl, refl, refl)
  run_over (e ∷ es) p s =
      let (over, same) = step-IsOver e p s in ground (arith, same, run_over es (step o e p) over)

  -- After the cleanup nothing that still arrives sends a request, reports a lost session or changes
  -- what is shown.
  pub run-unmount : (es : List Event) (p : Polling) → Quiet p (run o es (unmount o p))
  unfolding unmount
  run-unmount es p = run_over es (unmount o p) (refl, refl, refl)

  abbrev pub SendsOne : Polling → Polling → Type 0
  SendsOne p q =
      (q.requests ≡ suc p.requests)
      × (p.in_flight ≡ false)
      × (q.in_flight ≡ true)
      × (q.active ≡ true)
      × (q.suspended ≡ false)
      × ((o.enabled && has_credential o) ≡ true)

  -- A callback sends no request or exactly one, and one only where none is under way, in an active effect
  -- that is not suspended and is enabled with a credential; afterwards that request is under way.
  pub step-requests :
      (e : Event) (p : Polling) → (step o e p).requests ≡ p.requests ⊎ SendsOne p (step o e p)
  unfolding step on_microtask on_response on_failure classified schedule retry_now request_status
      handle_environment_change unmount
  step-requests microtask p = ground arith
  step-requests timer_fired p = ground arith
  step-requests retry p = ground arith
  step-requests cleanup p = inl refl
  step-requests (fetched r) p = ground arith
  step-requests (failed e) p = ground arith
  step-requests (environment b) p = ground arith

  -- Polling that has stopped sends a request only if the user asks for it.
  pub stopped-step :
      (e : Event) (p : Polling)
      → IsSound o p
      → p.stopped ≡ true
      → e ≢ retry
      → ((step o e p).requests ≡ p.requests) × ((step o e p).stopped ≡ true)
  unfolding step on_microtask on_response on_failure retry_now request_status
      handle_environment_change unmount
  stopped-step microtask p s h n = ground arith
  stopped-step timer_fired p s h n = ground (arith, s)
  stopped-step retry p s h n = absurd (n refl)
  stopped-step cleanup p s h n = ground arith
  stopped-step (fetched r) p s h n = ground (arith, s)
  stopped-step (failed e) p s h n = ground (arith, s)
  stopped-step (environment b) p s h n = ground arith

  run-stopped :
      (es : List Event) (p : Polling)
      → All (λ e. e ≢ retry) es
      → IsSound o p
      → p.stopped ≡ true
      → (run o es p).requests ≡ p.requests
  unfolding run
  run-stopped [] p n s h = refl
  run-stopped (e ∷ es) p n s h =
      let (same, still) = stopped-step e p s h n.0 in
      run-stopped es (step o e p) n.1 (step-IsSound o e p s) still ∙ same

  -- Once an active effect with sound variables and a request under way has received a snapshot of a
  -- completed or cancelled order, no further request is sent, whatever happens, unless the user retries.
  pub run-terminal :
      (r : OrderStatusResponse) (es : List Event) (p : Polling)
      → IsSound o p
      → p.active ≡ true
      → p.in_flight ≡ true
      → is_terminal_status r.status ≡ true
      → All (λ e. e ≢ retry) es
      → (run o es (step o (fetched r) p)).requests ≡ p.requests
  unfolding step on_response
  run-terminal r es p s a f t n =
      run-stopped es (step o (fetched r) p) n (step-IsSound o (fetched r) p s) (ground arith)
      ∙ ground arith

  abbrev pub IsLive : Polling → Type 0
  IsLive p =
      p.active ≡ true
      → p.stopped ≡ false
      → p.suspended ≡ false
      → (p.in_flight ≡ true) ⊎ (is_some p.timer ≡ true)

  step-IsLive : (e : Event) (p : Polling) → IsSound o p → IsLive p → IsLive (step o e p)
  unfolding step on_microtask on_response on_failure classified schedule retry_now request_status
      handle_environment_change unmount
  step-IsLive microtask p s l = ground (arith, s, l)
  step-IsLive timer_fired p s l = ground (arith, s, l)
  step-IsLive retry p s l = ground (arith, s, l)
  step-IsLive cleanup p s l = ground (arith, s, l)
  step-IsLive (fetched r) p s l = ground (arith, s, l)
  step-IsLive (failed e) p s l = ground (arith, s, l)
  step-IsLive (environment b) p s l = ground (arith, s, l)

  run-IsLive : (es : List Event) (p : Polling) → IsSound o p → IsLive p → IsLive (run o es p)
  unfolding run
  run-IsLive [] p s l = l
  run-IsLive (e ∷ es) p s l =
      run-IsLive es (step o e p) (step-IsSound o e p s) (step-IsLive e p s l)

  microtask-IsLive : (p : Polling) → IsSound o p → IsLive (on_microtask o p)
  unfolding on_microtask request_status
  microtask-IsLive p s = ground (arith, s)

  -- Polling never falls silent: once the microtask of the mounting has run, whatever happens, an active
  -- effect that is neither stopped nor suspended has a request under way or a timer pending.
  pub polling_live :
      (available : Bool) (es : List Event)
      → (run o (microtask ∷ es) (mount o available)).active ≡ true
      → (run o (microtask ∷ es) (mount o available)).stopped ≡ false
      → (run o (microtask ∷ es) (mount o available)).suspended ≡ false
      → ((run o (microtask ∷ es) (mount o available)).in_flight ≡ true)
        ⊎ (is_some (run o (microtask ∷ es) (mount o available)).timer ≡ true)
  unfolding run step
  polling_live available es =
      let s = mount-IsSound o available in
      run-IsLive es (on_microtask o (mount o available))
        (step-IsSound o microtask (mount o available) s) (microtask-IsLive (mount o available) s)
