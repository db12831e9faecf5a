-- ===== src/Booking/Model.antt =====
-- backend/internal/booking/model.go, hold.go and repository.go: the rows, the hold rules and the
-- requests with their validation.
use ottodot_trial_booking_se.Prelude.{
  [], Bool, false, ◌&&◌, not, Option, none, some, Text, is_empty, ℤ, pos, leb_ℤ, ltb_ℤ, ◌+ℤ◌, Time,
  Duration, is_zero, after, add_time, if◌then◌else◌,
}
use ottodot_trial_booking_se.Booking.Status.{Status, other, no_status, is_known}
use ottodot_trial_booking_se.Booking.Errors.{Error, err_invalid_request}

-- A Go `Actor` is a string; `other_actor` is any but the four constants.
pub data Actor : Type 0 where
  parent system admin payment : Actor
  other_actor : Text → Actor

pub record Class : Type 0 where
  pub id : Text
  pub subject : Text
  pub title : Text
  pub starts_at : Time
  pub duration_minutes : ℤ  -- int16
  pub capacity : ℤ  -- int16
  pub hold_allowance : ℤ  -- int16

pub record Booking : Type 0 where
  pub id : Text
  pub student_id : Text
  pub class_id : Text
  pub status : Status
  pub seat_no : ℤ  -- int16
  pub hold_expires_at : Time
  pub confirmed_at : Time
  pub created_at : Time
  pub updated_at : Time

pub record Event : Type 0 where
  pub id : Text
  pub booking_id : Text
  pub from_status : Status
  pub to_status : Status
  pub actor : Actor
  pub reason : Text
  pub created_at : Time

-- The zero values `Booking{}` and `Class{}`.
abbrev pub no_booking : Booking
no_booking = record {
  id = [];
  student_id = [];
  class_id = [];
  status = no_status;
  seat_no = pos 0;
  hold_expires_at = 0;
  confirmed_at = 0;
  created_at = 0;
  updated_at = 0;
}

abbrev pub no_class : Class
no_class = record {
  id = [];
  subject = [];
  title = [];
  starts_at = 0;
  duration_minutes = pos 0;
  capacity = pos 0;
  hold_allowance = pos 0;
}

unfoldable pub has_seat : Booking → Bool
has_seat booking = leb_ℤ (pos 1) booking.seat_no

-- `int(capacity) + int(allowance)`: two int16 values, so the sum does not wrap.
unfoldable pub max_holders : Class → ℤ
max_holders class = class.capacity +ℤ class.hold_allowance

unfoldable pub hold_is_live : Time → Time → Bool
hold_is_live deadline now = if is_zero deadline then false else after deadline now

unfoldable pub hold_deadline : Time → Duration → Time
hold_deadline now ttl = add_time now ttl

pub record HoldRequest : Type 0 where
  pub booking_id : Text
  pub student_id : Text
  pub class_id : Text
  pub now : Time
  pub expires_at : Time
  pub max_holds_per_parent : ℤ

pub record ConfirmRequest : Type 0 where
  pub booking_id : Text
  pub now : Time

pub record ExpireRequest : Type 0 where
  pub booking_id : Text
  pub now : Time

pub record FailRequest : Type 0 where
  pub booking_id : Text
  pub reason : Text
  pub now : Time

pub record CancelRequest : Type 0 where
  pub booking_id : Text
  pub actor : Actor
  pub reason : Text
  pub now : Time

pub record WorklistRequest : Type 0 where
  pub status : Status
  pub limit : ℤ

abbrev pub is_no_status : Status → Bool
is_no_status (other s) = is_empty s
is_no_status _ = false

unfoldable pub validate_worklist : WorklistRequest → Option Error
unfolding is_known
validate_worklist request =
    if ltb_ℤ request.limit (pos 1)
    then some err_invalid_request
    else if not (is_no_status request.status) && not (is_known request.status)
    then some err_invalid_request
    else none

pub record ParentBookingsRequest : Type 0 where
  pub parent_id : Text
  pub limit : ℤ

unfoldable pub validate_parent_bookings : ParentBookingsRequest → Option Error
validate_parent_bookings request =
    if is_empty request.parent_id
    then some err_invalid_request
    else if ltb_ℤ request.limit (pos 1)
    then some err_invalid_request
    else none
