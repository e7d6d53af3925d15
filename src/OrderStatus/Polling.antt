-- ===== src/OrderStatus/Polling.antt =====
-- frontend/src/features/order-status/useOrderStatusPolling.ts: the state of one effect of
-- `useOrderStatusPolling`, and one function per callback. A reply and the `finally` after it are one step.
use restaurant_ordering_anal.Base.{
  ℕ, suc, Bool, true, false, not, ◌&&◌, ◌||◌, List, [], ◌∷◌, Option, none, some, JsString,
  if◌then◌else◌, ◌-◌, min, ◌==◌,
}
use restaurant_ordering_anal.Orders.Order.{
  OrderStatus, completed, cancelled, accepted, created, preparing, ready,
}
use restaurant_ordering_anal.Orders.Status.{OrderStatusResponse}
use restaurant_ordering_anal.OrderStatus.Errors.{
  PollingError, Rejection, access_denied, classify_polling_error, is_unauthorized,
}

pub record PollingOptions : Type 0 where
  pub access_token : Option JsString
  pub guest_access_token : Option JsString
  pub enabled : Bool

-- The part of the state that React shows.
pub record PollingState : Type 0 where
  pub data_shown : Option OrderStatusResponse
  pub error : Option PollingError
  pub is_loading : Bool
  pub is_paused : Bool
  pub is_refreshing : Bool
  pub is_stopped : Bool

-- The variables of the effect. `timer` holds the delay the pending timer was set with, `requests` counts
-- the calls of `fetchOrderStatus` and `unauthorized` those of `onUnauthorized`. `attached` says that
-- the listeners are on; `requestRef.current` is this effect's while it is active.
pub record Polling : Type 0 where
  pub active : Bool
  pub in_flight : Bool
  pub stopped : Bool
  pub suspended : Bool
  pub consecutive_failures : ℕ
  pub latest_data : Option OrderStatusResponse
  pub timer : Option ℕ
  pub controller_aborted : Option Bool
  pub attached : Bool
  pub requests : ℕ
  pub unauthorized : ℕ
  pub shown : PollingState

pub data Event : Type 0 where
  microtask timer_fired retry cleanup : Event
  fetched : OrderStatusResponse → Event
  failed : Rejection → Event
  environment : Bool → Event

abbrev pub is_some : {A : Type 0} → Option A → Bool
is_some none = false
is_some (some a) = true

unfoldable pub is_terminal_status : OrderStatus → Bool
is_terminal_status completed = true
is_terminal_status cancelled = true
is_terminal_status accepted = false
is_terminal_status created = false
is_terminal_status preparing = false
is_terminal_status ready = false

-- `TRANSIENT_RETRY_DELAYS_MS[Math.min(failures - 1, 2)]`.
unfoldable pub transient_retry_delay : ℕ → ℕ
transient_retry_delay failures =
    let index = min (failures - 1) 2 in
    if index == 0 then 8000 else if index == 1 then 16000 else 30000

abbrev pub normal_poll_delay_ms : ℕ
normal_poll_delay_ms = 8000

abbrev pub clear_timer : Polling → Polling
clear_timer p = record p { timer = none }

unfoldable pub schedule : ℕ → Polling → Polling
schedule delay p =
    if not p.active || p.stopped || p.suspended
    then clear_timer p
    else record p { timer = some delay }

abbrev pub show : PollingState → Polling → Polling
show view p = record p { shown = view }

module _ (o : PollingOptions) where
  unfoldable pub has_credential : Bool
  has_credential = is_some o.access_token || is_some o.guest_access_token

  -- The state of `useState` and of the effect's variables before the microtask runs.
  unfoldable pub mount : Bool → Polling
  mount available = record {
    active = true;
    in_flight = false;
    stopped = not o.enabled || not has_credential;
    suspended = not available;
    consecutive_failures = 0;
    latest_data = none;
    timer = none;
    controller_aborted = none;
    attached = o.enabled && has_credential;
    requests = 0;
    unauthorized = 0;
    shown = record {
      data_shown = none;
      error = none;
      is_loading = o.enabled && has_credential;
      is_paused = o.enabled && has_credential && not available;
      is_refreshing = false;
      is_stopped = not o.enabled || not has_credential;
    };
  }

  unfoldable pub request_status : Polling → Polling
  request_status p =
      if not p.active
        || p.stopped
        || p.suspended
        || p.in_flight
        || not has_credential
        || not o.enabled
      then p
      else record p {
        timer = none;
        in_flight = true;
        controller_aborted = some false;
        requests = suc p.requests;
        shown = record p.shown {
          error = none;
          is_loading = not (is_some p.latest_data);
          is_refreshing = is_some p.latest_data;
          is_stopped = false;
        };
      }

  unfoldable pub on_microtask : Polling → Polling
  on_microtask p =
      let first = record p {
        shown = record {
          data_shown = none;
          error = none;
          is_loading = o.enabled && has_credential && not p.suspended;
          is_paused = o.enabled && has_credential && p.suspended;
          is_refreshing = false;
          is_stopped = p.stopped;
        };
      } in
      if not p.active
      then p
      else if o.enabled && has_credential && not p.suspended
      then request_status first
      else first

  abbrev pub finally : Polling → Polling
  finally p = record p { in_flight = false; controller_aborted = none }

  unfoldable pub on_response : OrderStatusResponse → Polling → Polling
  on_response response p =
      let stops = is_terminal_status response.status in
      let next = record p {
        latest_data = some response;
        consecutive_failures = 0;
        stopped = stops;
        shown = record {
          data_shown = some response;
          error = none;
          is_loading = false;
          is_paused = p.suspended;
          is_refreshing = false;
          is_stopped = stops;
        };
      } in
      if not p.active then p else if not stops then schedule normal_poll_delay_ms next else next

  abbrev pub show_failure : PollingError → Bool → Polling → Polling
  show_failure e stops p = record p {
    stopped = stops;
    shown = record {
      data_shown = p.latest_data;
      error = some e;
      is_loading = false;
      is_paused = p.suspended;
      is_refreshing = false;
      is_stopped = stops;
    };
  }

  abbrev pub back_off : Polling → Polling
  back_off p =
      schedule (transient_retry_delay (suc p.consecutive_failures))
        (record p { consecutive_failures = suc p.consecutive_failures })

  unfoldable pub classified : PollingError → Polling → Polling
  classified e p =
      let next = show_failure e (not e.retryable) p in if e.retryable then back_off next else next

  abbrev pub is_aborted : Option Bool → Bool
  is_aborted none = false
  is_aborted (some b) = b

  unfoldable pub on_failure : Rejection → Polling → Polling
  on_failure e p =
      let denied = show_failure access_denied true p in
      if not p.active || is_aborted p.controller_aborted
      then p
      else if is_some o.access_token && is_unauthorized e
      then record denied { unauthorized = suc p.unauthorized }
      else classified (classify_polling_error e) p

  unfoldable pub retry_now : Polling → Polling
  retry_now p =
      let cleared = clear_timer p in
      if not p.active || p.suspended || p.in_flight || not has_credential || not o.enabled
      then cleared
      else request_status (record cleared { stopped = false })

  unfoldable pub handle_environment_change : Bool → Polling → Polling
  handle_environment_change available p =
      let moved = record p {
        suspended = not available;
        shown = record p.shown { is_paused = not available };
      } in
      if (not available && p.suspended) || (available && not p.suspended)
      then p
      else if not available
      then clear_timer moved
      else if not p.stopped
      then request_status moved
      else moved

  unfoldable pub unmount : Polling → Polling
  unmount p = record p {
    active = false;
    attached = false;
    timer = none;
    controller_aborted = abort p.controller_aborted;
  }
    where
      abort : Option Bool → Option Bool
      abort none = none
      abort (some b) = some true

  -- One callback. A timer that is not pending does not fire, nothing is answered that is not in flight,
  -- and listeners that are not attached hear nothing.
  unfoldable pub step : Event → Polling → Polling
  step microtask p = on_microtask p
  step timer_fired p = if is_some p.timer then request_status (clear_timer p) else p
  step retry p = if p.active then retry_now p else p
  step cleanup p = unmount p
  step (fetched r) p = if p.in_flight then finally (on_response r p) else p
  step (failed e) p = if p.in_flight then finally (on_failure e p) else p
  step (environment b) p = if p.attached then handle_environment_change b p else p

  unfoldable pub run : List Event → Polling → Polling
  run [] p = p
  run (e ∷ es) p = run es (step e p)
