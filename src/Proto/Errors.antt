-- ===== src/Proto/Errors.antt =====
-- proto/src/error.rs
use ipgate.Base.{Text}

pub data ErrorCode : Type 0 where
  unauthorized pairing_invalid device_unknown challenge_invalid bad_request would_lock_out :
      ErrorCode
  conflict rate_limited not_found nft_failure internal_error : ErrorCode

pub record ApiError : Type 0 where
  pub code : ErrorCode
  pub message : Text

unfoldable pub api_error : ErrorCode → Text → ApiError
api_error code message = record { code = code; message = message }
