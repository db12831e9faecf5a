-- ===== src/Auth/Errors.antt =====
-- backend/internal/auth: errors.go and the answers of failure.go.
use ottodot_trial_booking_se.Prelude.{Text, codes, ℕ}

-- The sentinel errors; `foreign` is an error of code that this package calls, with its message.
pub data Error : Type 0 where
  err_invalid_request err_token_invalid err_token_expired err_token_reused : Error
  err_token_not_found err_duplicate_token err_no_such_parent err_forbidden_role : Error
  err_origin_refused err_not_authenticated : Error
  foreign : Text → Error

-- `Failure` without its wording: the HTTP status and the code.
pub record Failure : Type 0 where
  pub status : ℕ
  pub code : Text

unfoldable pub failure_for : Error → Failure
failure_for err_token_expired = record { status = 401; code = codes "token_expired" }
failure_for err_token_reused = record { status = 401; code = codes "token_reused" }
failure_for err_token_invalid = record { status = 401; code = codes "token_invalid" }
failure_for err_token_not_found = record { status = 401; code = codes "token_invalid" }
failure_for err_not_authenticated = record { status = 401; code = codes "token_invalid" }
failure_for err_forbidden_role = record { status = 403; code = codes "forbidden_role" }
failure_for err_invalid_request = record { status = 400; code = codes "invalid_request" }
failure_for err_no_such_parent = record { status = 400; code = codes "invalid_request" }
failure_for err_origin_refused = record { status = 400; code = codes "invalid_request" }
failure_for _ = record { status = 500; code = codes "internal_error" }
