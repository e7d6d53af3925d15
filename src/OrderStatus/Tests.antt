-- ===== src/OrderStatus/Tests.antt =====
-- The theorems on the polling, at concrete sequences of callbacks.
use restaurant_ordering_anal.Base.{true, false, ◌≡◌, ◌⊎◌, ◌≤◌, refl, List, [], ◌∷◌, none, some, js}
use restaurant_ordering_anal.Js.{nat}
use restaurant_ordering_anal.Fixtures.{order_number}
use restaurant_ordering_anal.Api.Errors.{network, api_error, http_error}
use restaurant_ordering_anal.Orders.Order.{OrderStatus, completed, preparing, takeaway}
use restaurant_ordering_anal.Orders.Status.{OrderStatusResponse}
use restaurant_ordering_anal.OrderStatus.Errors.{api, classify_polling_error}
use restaurant_ordering_anal.OrderStatus.Polling.{
  PollingOptions, Polling, Event, microtask, timer_fired, retry, fetched, failed, environment,
  is_some, mount, unmount, on_microtask, step, run, has_credential, request_status, on_response,
  is_terminal_status, schedule, on_failure, classified,
}
use restaurant_ordering_anal.OrderStatus.Safety.{mount-IsSound, step-IsSound, delay_after}
use restaurant_ordering_anal.OrderStatus.Schedule.{
  Quiet, SendsOne, polling_live, step-requests, run-terminal, run-unmount, delay_after_bounds,
}

abbrev options : PollingOptions
options = record {
  access_token = none;
  guest_access_token = some (js "guest-token");
  enabled = true;
}

abbrev snapshot : OrderStatus → OrderStatusResponse
snapshot status = record {
  created_at = js "2026-01-01T00:00:00Z";
  currency = js "PLN";
  items = [];
  order_type = takeaway;
  public_order_number = order_number;
  status = status;
  subtotal_amount = nat 2400;
  table_number = none;
  total_amount = nat 2400;
  updated_at = js "2026-01-01T00:00:00Z";
}

-- A snapshot, a second poll that fails, and a third that fails too.
abbrev events : List Event
events =
    fetched (snapshot preparing)
    ∷ timer_fired
    ∷ failed (api (api_error network))
    ∷ timer_fired
    ∷ failed (api (http_error 503))
    ∷ []

polling_live_example :
    ((run options (microtask ∷ events) (mount options true)).in_flight ≡ true)
    ⊎ (is_some (run options (microtask ∷ events) (mount options true)).timer ≡ true)
unfolding run step on_microtask mount has_credential request_status on_response is_terminal_status
    schedule on_failure classified classify_polling_error
polling_live_example = polling_live options true events refl refl refl

step-requests_example :
    (step options microtask (mount options true)).requests ≡ (mount options true).requests
    ⊎ SendsOne options (mount options true) (step options microtask (mount options true))
step-requests_example = step-requests options microtask (mount options true)

abbrev loading : Polling
loading = step options microtask (mount options true)

run-terminal_example :
    (run options
      (timer_fired ∷ environment false ∷ environment true ∷ [])
      (step options (fetched (snapshot completed)) loading)).requests
    ≡ loading.requests
unfolding step on_microtask mount has_credential request_status is_terminal_status
run-terminal_example =
    run-terminal options (snapshot completed)
      (timer_fired ∷ environment false ∷ environment true ∷ []) loading
      (step-IsSound options microtask (mount options true) (mount-IsSound options true)) refl refl
      refl ((λ e. absurd (cc)), ((λ e. absurd (cc)), ((λ e. absurd (cc)), tt)))

run-unmount_example :
    Quiet options loading
      (run options (fetched (snapshot preparing) ∷ retry ∷ []) (unmount options loading))
run-unmount_example = run-unmount options (fetched (snapshot preparing) ∷ retry ∷ []) loading

delay_after_bounds_example :
    (8000 ≤ delay_after 3) × (delay_after 3 ≤ 30000) × (delay_after 3 ≤ delay_after 4)
delay_after_bounds_example = delay_after_bounds 3
