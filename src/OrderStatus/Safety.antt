-- ===== src/OrderStatus/Safety.antt =====
-- When a poll may be sent, and what the timer is set to.
use restaurant_ordering_anal.Base.{
  ℕ, zero, suc, Bool, true, false, not, ◌&&◌, List, [], ◌∷◌, none, some, ◌≡◌, arith,
}
use restaurant_ordering_anal.OrderStatus.Errors.{Rejection, PollingError, classify_polling_error}
use restaurant_ordering_anal.Orders.Status.{OrderStatusResponse}
use restaurant_ordering_anal.OrderStatus.Polling.{
  PollingOptions, Polling, Event, microtask, timer_fired, retry, cleanup, fetched, failed,
  environment, has_credential, mount, request_status, clear_timer, finally, on_microtask,
  on_response, on_failure, retry_now, handle_environment_change, unmount, step, run, schedule,
  classified, transient_retry_delay,
}

-- How long the next poll is put off after so many failures in a row.
abbrev pub delay_after : ℕ → ℕ
delay_after zero = 8000
delay_after (suc n) = transient_retry_delay (suc n)

module _ (o : PollingOptions) where
  -- A timer is pending only while a poll may be sent and none is under way.
  abbrev pub TimerIsSound : Polling → Type 0
  TimerIsSound p =
      (d : ℕ)
      → p.timer ≡ some d
      → (p.in_flight ≡ false)
        × (p.active ≡ true)
        × (p.stopped ≡ false)
        × (p.suspended ≡ false)
        × (d ≡ delay_after p.consecutive_failures)

  -- A request under way has a controller, which is aborted once the effect has ended.
  abbrev pub FlightIsSound : Polling → Type 0
  FlightIsSound p =
      p.in_flight ≡ true → (p.stopped ≡ false) × (p.controller_aborted ≡ some (not p.active))

  abbrev pub IsSound : Polling → Type 0
  IsSound p =
      TimerIsSound p
      × FlightIsSound p
      × (p.in_flight ≡ false → p.controller_aborted ≡ none)
      × (p.stopped ≡ false → (o.enabled && has_credential o) ≡ true)

  pub mount-IsSound : (b : Bool) → IsSound (mount o b)
  unfolding mount
  mount-IsSound b = ground arith

  request_status-IsSound : (p : Polling) → IsSound p → IsSound (request_status o p)
  unfolding request_status
  request_status-IsSound p s = ground (arith, s)

  schedule-IsSound :
      (d : ℕ) (p : Polling)
      → p.in_flight ≡ false
      → d ≡ delay_after p.consecutive_failures
      → IsSound p
      → IsSound (schedule d p)
  unfolding schedule
  schedule-IsSound d p f e s = ground (arith, s)

  on_microtask-IsSound : (p : Polling) → IsSound p → IsSound (on_microtask o p)
  unfolding on_microtask request_status
  on_microtask-IsSound p s = ground (arith, s)

  retry_now-IsSound : (p : Polling) → IsSound p → IsSound (retry_now o p)
  unfolding retry_now request_status
  retry_now-IsSound p s = ground (arith, s)

  environment-IsSound :
      (b : Bool) (p : Polling) → IsSound p → IsSound (handle_environment_change o b p)
  unfolding handle_environment_change request_status
  environment-IsSound b p s = ground (arith, s)

  unmount-IsSound : (p : Polling) → IsSound p → IsSound (unmount o p)
  unfolding unmount
  unmount-IsSound p s = ground (arith, s)

  response-IsSound :
      (r : OrderStatusResponse) (p : Polling)
      → p.in_flight ≡ true
      → IsSound p
      → IsSound (finally o (on_response o r p))
  unfolding on_response schedule
  response-IsSound r p f s = ground (arith, s)

  classified-IsSound :
      (e : PollingError) (p : Polling)
      → p.in_flight ≡ true
      → IsSound p
      → IsSound (finally o (classified o e p))
  unfolding classified schedule
  classified-IsSound e p f s = ground (arith, s)

  failure-IsSound :
      (e : Rejection) (p : Polling)
      → p.in_flight ≡ true
      → IsSound p
      → IsSound (finally o (on_failure o e p))
  unfolding on_failure
  failure-IsSound e p f s = ground (arith, s, classified-IsSound (classify_polling_error e) p f s)

  -- Every callback keeps the effect's variables sound.
  pub step-IsSound : (e : Event) (p : Polling) → IsSound p → IsSound (step o e p)
  unfolding step
  step-IsSound microtask p s = on_microtask-IsSound p s
  step-IsSound timer_fired p s =
      ground (arith, s, request_status-IsSound (clear_timer p) (ground (arith, s)))
  step-IsSound retry p s = ground (arith, retry_now-IsSound p s)
  step-IsSound cleanup p s = unmount-IsSound p s
  step-IsSound (fetched r) p s = ground (arith, s, response-IsSound r p)
  step-IsSound (failed e) p s = ground (arith, s, failure-IsSound e p)
  step-IsSound (environment b) p s = ground (arith, s, environment-IsSound b p s)

  pub run-IsSound : (es : List Event) (p : Polling) → IsSound p → IsSound (run o es p)
  unfolding run
  run-IsSound [] p s = s
  run-IsSound (e ∷ es) p s = run-IsSound es (step o e p) (step-IsSound e p s)

  -- Whatever happens after mounting, the controller of a request under way is aborted exactly if the
  -- effect has been cleaned up.
  pub request_controlled :
      (available : Bool) (es : List Event)
      → (run o es (mount o available)).in_flight ≡ true
      → (run o es (mount o available)).controller_aborted
        ≡ some (not (run o es (mount o available)).active)
  request_controlled available es h =
      let (timer, flight, idle, needed) =
        run-IsSound es (mount o available) (mount-IsSound available) in
      (flight h).1
