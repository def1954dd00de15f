-- ===== src/Api/Errors.antt =====
-- packages/api/src/lib/errors.ts: the errors that a handler throws, less their messages and details.
pub data HttpErrorCode : Type 0 where
  validation_error not_found_error conflict_error unauthorized_error : HttpErrorCode
  forbidden_error rate_limited_error payment_failed_error config_error : HttpErrorCode
  upstream_error internal_error : HttpErrorCode

-- What a handler throws: an `HttpError` by its code, or another error, such as one of SQLite's.
pub data Thrown : Type 0 where
  http : HttpErrorCode → Thrown
  other : Thrown

pub data Result {ℓ} (A : Type ℓ) : Type ℓ where
  err : Thrown → Result A
  ok : A → Result A

abbrev pub bad_request : Thrown
bad_request = http validation_error

abbrev pub unauthorized : Thrown
unauthorized = http unauthorized_error

abbrev pub not_found : Thrown
not_found = http not_found_error

abbrev pub conflict : Thrown
conflict = http conflict_error

abbrev pub payment_failed : Thrown
payment_failed = http payment_failed_error
