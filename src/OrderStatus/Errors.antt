-- ===== src/OrderStatus/Errors.antt =====
-- frontend/src/features/order-status/useOrderStatusPolling.ts: what a failed poll means.
use restaurant_ordering_anal.Base.{
  ℕ, Bool, true, false, ◌&&◌, Option, none, some, if◌then◌else◌, ◌==◌, leb, ◌≡◌, ◌≤◌, ◌⊎◌, inl, inr,
  arith, refl, ◌↔◌,
}
use restaurant_ordering_anal.Api.Errors.{
  ApiRequestErrorKind, ApiRequestError, aborted, http, invalid_response, network, timeout,
}

pub data PollingErrorKind : Type 0 where
  access contract transient : PollingErrorKind

-- `OrderStatusPollingError` without its message.
pub record PollingError : Type 0 where
  pub kind : PollingErrorKind
  pub retryable : Bool

-- What the promise of `fetchOrderStatus` is rejected with.
pub data Rejection : Type 0 where
  api : ApiRequestError → Rejection
  other : Rejection

abbrev pub access_denied : PollingError
access_denied = record { kind = access; retryable = false }

abbrev pub broken_contract : PollingError
broken_contract = record { kind = contract; retryable = false }

abbrev pub unavailable : PollingError
unavailable = record { kind = transient; retryable = true }

abbrev pub status_is : ℕ → Option ℕ → Bool
status_is n none = false
status_is n (some status) = status == n

abbrev pub status_at_least : ℕ → Option ℕ → Bool
status_at_least n none = false
status_at_least n (some status) = leb n status

abbrev pub classify_api_error : ApiRequestErrorKind → Option ℕ → PollingError
classify_api_error http status =
    if status_is 404 status
    then access_denied
    else if status_is 422 status
    then broken_contract
    else if status_at_least 500 status
    then unavailable
    else broken_contract
classify_api_error invalid_response status = broken_contract
classify_api_error network status = unavailable
classify_api_error timeout status = unavailable
classify_api_error aborted status = unavailable

unfoldable pub classify_polling_error : Rejection → PollingError
classify_polling_error other = broken_contract
classify_polling_error (api e) = classify_api_error e.kind e.status

-- `error.kind === 'http' && error.status === 401`.
unfoldable pub is_unauthorized : Rejection → Bool
is_unauthorized other = false
is_unauthorized (api e) = is_http e.kind && status_is 401 e.status
  where
    is_http : ApiRequestErrorKind → Bool
    is_http http = true
    is_http _ = false

-- What may be tried again: a network error, a timeout, an aborted request and a status from 500 on.
abbrev pub KindMayPass : ApiRequestErrorKind → Option ℕ → Type 0
KindMayPass kind status =
    (kind ≡ network)
    ⊎ ((kind ≡ timeout)
        ⊎ ((kind ≡ aborted) ⊎ ((kind ≡ http) × ((n : ℕ) × (status ≡ some n) × (500 ≤ n)))))

abbrev pub MayPass : Rejection → Type 0
MayPass other = ⊥
MayPass (api e) = KindMayPass e.kind e.status

classify_api_sound :
    (kind : ApiRequestErrorKind) (status : Option ℕ)
    → (classify_api_error kind status).retryable ≡ true
    → KindMayPass kind status
classify_api_sound network status h = inl refl
classify_api_sound timeout status h = inr (inl refl)
classify_api_sound aborted status h = inr (inr (inl refl))
classify_api_sound invalid_response status h = absurd (cc)
classify_api_sound http none h = absurd (cc)
classify_api_sound http (some n) h = inr (inr (inr (refl, (n, refl, ground arith))))

classify_sound : (e : Rejection) → (classify_polling_error e).retryable ≡ true → MayPass e
unfolding classify_polling_error
classify_sound other h = ground arith
classify_sound (api e) h = classify_api_sound e.kind e.status h

classify_complete : (e : Rejection) → MayPass e → (classify_polling_error e).retryable ≡ true
unfolding classify_polling_error
classify_complete other h = absurd h
classify_complete (api e) h = ground arith

-- A failed poll is tried again exactly if its error may pass: a network error, a timeout, an aborted
-- request or a status from 500 on.
pub classify_polling_error-MayPass :
    (e : Rejection) → (classify_polling_error e).retryable ≡ true ↔ MayPass e
classify_polling_error-MayPass e = (classify_sound e, classify_complete e)
