-- ===== src/OrderStatus/Display.antt =====
-- What is shown tells where the polling stands.
use restaurant_ordering_anal.Base.{true, not, ◌&&◌, ◌≡◌}
use restaurant_ordering_anal.OrderStatus.Polling.{PollingOptions, Polling, is_some, has_credential}

module _ (o : PollingOptions) where
  -- What is shown agrees with the variables: the newest snapshot, loading while the first request is
  -- under way, refreshing while a later one is.
  abbrev pub IsShown : Polling → Type 0
  IsShown p =
      (p.shown.data_shown ≡ p.latest_data)
      × (p.shown.is_stopped ≡ p.stopped)
      × (p.shown.is_paused ≡ (o.enabled && has_credential o && p.suspended))
      × (p.shown.is_loading ≡ (p.in_flight && not (is_some p.latest_data)))
      × (p.shown.is_refreshing ≡ (p.in_flight && is_some p.latest_data))

  abbrev pub IsTruthful : Polling → Type 0
  IsTruthful p = p.active ≡ true → IsShown p × (p.attached ≡ (o.enabled && has_credential o))
