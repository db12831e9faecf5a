-- ===== src/Booking/Service.antt =====
-- backend/internal/booking/service.go: the policy over the repository. The clock's answer and the
-- minted identifiers are arguments, in the order in which a call reads them.
pub mod Cap
mod Examples
pub mod Kept
pub mod Remaining
use ottodot_trial_booking_se.Booking.Status.{Status}
use ottodot_trial_booking_se.Prelude.{
  Option, Text, Time, if◌then◌else◌, is_empty, some, none, List, [], ℤ, pos, ◌||◌, ltb_ℤ, leb_ℤ,
  ◌-ℤ◌, length, Duration, minutes, codes,
}
use ottodot_trial_booking_se.Identifier.{Minted, minted, mint_failed}
use ottodot_trial_booking_se.Booking.Model.{
  validate_worklist, validate_parent_bookings, Actor, Booking, no_booking, Class, no_class, Event,
  HoldRequest, hold_deadline,
}
use ottodot_trial_booking_se.Booking.Memory.Writes.{cancel, expire, hold, confirm, fail}
use ottodot_trial_booking_se.Booking.Memory.Reads.{
  Repository, get_booking, get_class, get_events, live_booking, seats_taken, worklist,
  parent_bookings,
}
use ottodot_trial_booking_se.Booking.Errors.{Error, err_invalid_request, foreign}

-- The clock and the minting of `Settings` are the arguments of the calls.
pub record Policy : Type 0 where
  pub hold_ttl : Duration
  pub max_holds_per_parent : ℤ

-- DefaultSettings
unfoldable pub default_policy : Policy
default_policy = record { hold_ttl = minutes 10; max_holds_per_parent = pos 3 }

pub record Service : Type 0 where
  pub repository : Repository
  pub policy : Policy

pub record HoldCommand : Type 0 where
  pub student_id : Text
  pub class_id : Text

unfoldable pub new_service : Option Repository → Policy → Option Service × Option Error
new_service none policy = (none, some (foreign (codes "booking: the service needs a repository")))
new_service (some repository) policy =
    if leb_ℤ policy.hold_ttl (pos 0)
    then (none, some (foreign (codes "booking: the hold lifetime must be greater than zero")))
    else if ltb_ℤ policy.max_holds_per_parent (pos 1)
    then (none, some (foreign (codes "booking: a parent must be allowed at least one hold")))
    else (some (record { repository = repository; policy = policy }), none)

unfoldable pub hold_request : Policy → Text → HoldCommand → Time → HoldRequest
hold_request policy booking_id command now = record {
  booking_id = booking_id;
  student_id = command.student_id;
  class_id = command.class_id;
  now = now;
  expires_at = hold_deadline now policy.hold_ttl;
  max_holds_per_parent = policy.max_holds_per_parent;
}

-- Hold: `id_mint` answers the service's call of NewBookingID, `mint` the one of the audit trail.
unfoldable pub hold_booking :
    Policy → Repository → Minted → Time → Minted → HoldCommand → Repository × Booking × Option Error
hold_booking policy repository id_mint now mint command =
    if is_empty command.student_id || is_empty command.class_id
    then (repository, no_booking, some err_invalid_request)
    else elim id_mint [
      | mint_failed why ↦ (repository, no_booking, some (foreign why))
      | minted booking_id ↦ hold repository mint (hold_request policy booking_id command now)
    ]

unfoldable pub confirm_booking :
    Repository → Minted → Text → Time → Repository × Booking × Option Error
confirm_booking repository mint booking_id now =
    if is_empty booking_id
    then (repository, no_booking, some err_invalid_request)
    else confirm repository mint (record { booking_id = booking_id; now = now })

unfoldable pub cancel_booking :
    Repository → Minted → Text → Actor → Text → Time → Repository × Booking × Option Error
cancel_booking repository mint booking_id actor reason now =
    if is_empty booking_id
    then (repository, no_booking, some err_invalid_request)
    else cancel repository mint
        (record { booking_id = booking_id; actor = actor; reason = reason; now = now })

unfoldable pub fail_booking :
    Repository → Minted → Text → Text → Time → Repository × Booking × Option Error
fail_booking repository mint booking_id reason now =
    if is_empty booking_id
    then (repository, no_booking, some err_invalid_request)
    else fail repository mint (record { booking_id = booking_id; reason = reason; now = now })

unfoldable pub expire_booking :
    Repository → Minted → Text → Time → Repository × Booking × Option Error
expire_booking repository mint booking_id now =
    if is_empty booking_id
    then (repository, no_booking, some err_invalid_request)
    else expire repository mint (record { booking_id = booking_id; now = now })

-- Worklist and ParentBookings: the service and the repository make the same check of the request,
-- and a refused one answers no list.
unfoldable pub list_worklist : Repository → Status → ℤ → List Booking × Option Error
list_worklist repository status limit =
    elim (validate_worklist (record { status = status; limit = limit })) [
      | some err ↦ ([], some err)
      | none ↦ worklist repository (record { status = status; limit = limit })
    ]

unfoldable pub list_parent_bookings : Repository → Text → ℤ → List Booking × Option Error
list_parent_bookings repository parent_id limit =
    elim (validate_parent_bookings (record { parent_id = parent_id; limit = limit })) [
      | some err ↦ ([], some err)
      | none ↦ parent_bookings repository (record { parent_id = parent_id; limit = limit })
    ]

unfoldable pub read_booking : Repository → Text → Booking × Option Error
read_booking repository booking_id =
    if is_empty booking_id
    then (no_booking, some err_invalid_request)
    else get_booking repository booking_id

unfoldable pub read_events : Repository → Text → List Event × Option Error
read_events repository booking_id =
    if is_empty booking_id
    then ([], some err_invalid_request)
    else (get_events repository booking_id, none)

unfoldable pub read_live_booking : Repository → Text → Text → Booking × Option Error
read_live_booking repository student_id class_id =
    if is_empty student_id || is_empty class_id
    then (no_booking, some err_invalid_request)
    else live_booking repository student_id class_id

unfoldable pub read_class : Repository → Text → Class × Option Error
read_class repository class_id =
    if is_empty class_id
    then (no_class, some err_invalid_request)
    else get_class repository class_id

-- `remaining < 0` answers 0.
abbrev left_over : ℤ → ℤ
left_over remaining = if ltb_ℤ remaining (pos 0) then pos 0 else remaining

-- SeatsRemaining reads twice, and others may change the repository between the reads.
unfoldable pub seats_remaining : Repository → Repository → Text → ℤ × Option Error
seats_remaining repository then_on class_id =
    let (class, err) = read_class repository class_id in
    elim err [
      | some class_err ↦ (pos 0, some class_err)
      | none ↦ (left_over (class.capacity -ℤ pos (length (seats_taken then_on class_id))), none)
    ]
