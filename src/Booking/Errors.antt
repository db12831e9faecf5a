-- ===== src/Booking/Errors.antt =====
-- backend/internal/booking/errors.go and faults.go: what the package reports, and the fault source.
use ottodot_trial_booking_se.Prelude.{Bool, false, Option, none, some, Text}

-- The sentinel errors. `foreign` is an error of code this package only calls, with its message.
pub data Error : Type 0 where
  err_invalid_request err_class_not_found err_student_not_found err_booking_not_found : Error
  err_already_booked err_too_many_holds err_class_full err_seat_lost err_not_holding : Error
  err_hold_still_live err_invalid_transition err_lock_wait_timeout err_transaction_broken : Error
  foreign : Text → Error

-- `type Fault func(point string) bool`, where nil is `none`. A fault function is read once for each
-- call of `triggered`; within one call of the repository it is a function of the point's name.
abbrev pub Fault : Type 0
Fault = Option (Text → Bool)

unfoldable pub triggered : Fault → Text → Bool
triggered none point = false
triggered (some fault) point = fault point
