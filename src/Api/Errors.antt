-- ===== src/Api/Errors.antt =====
-- frontend/src/api/client.ts: what a request throws. The messages and causes are left out.
use restaurant_ordering_anal.Base.{ℕ, Option, none, some}

pub data ApiRequestErrorKind : Type 0 where
  aborted http invalid_response network timeout : ApiRequestErrorKind

-- The class of an error: `ApiRequestError` itself, one of its three subclasses, or none of them, for what
-- the browser throws.
pub data ApiErrorClass : Type 0 where
  plain authenticated checkout administration foreign : ApiErrorClass

pub record ApiRequestError : Type 0 where
  pub origin : ApiErrorClass
  pub kind : ApiRequestErrorKind
  pub status : Option ℕ
  pub retry_after_seconds : Option ℕ

abbrev pub api_error : ApiRequestErrorKind → ApiRequestError
api_error kind = record { origin = plain; kind = kind; status = none; retry_after_seconds = none }

abbrev pub http_error : ℕ → ApiRequestError
http_error status = record {
  origin = plain;
  kind = http;
  status = some status;
  retry_after_seconds = none;
}

abbrev pub invalid_runtime_configuration : ApiRequestError
invalid_runtime_configuration = api_error invalid_response

-- The `TypeError` of `new Headers` and of `headers.set`. It is no `ApiRequestError`: its kind stands for
-- none, and is the one that its callers treat like a foreign error.
abbrev pub header_type_error : ApiRequestError
header_type_error = record {
  origin = foreign;
  kind = invalid_response;
  status = none;
  retry_after_seconds = none;
}
