-- ===== src/Booking/Memory/Writes.antt =====
-- repository_memory.go: the methods that change a booking, and the audit trail. A method that
-- writes takes the answer of its call of NewUUIDv7.
use ottodot_trial_booking_se.Prelude.{
  Bool, true, false, not, ◌++◌, Option, none, some, [], ◌∷◌, Text, codes, ℤ, pos, leb_ℤ, Time,
  lookup, lookup_or, insert, if◌then◌else◌,
}
use ottodot_trial_booking_se.Identifier.{Minted, minted, mint_failed}
use ottodot_trial_booking_se.Booking.Status.{
  Status, pending_payment, confirmed, payment_failed, refund_required, expired, cancelled,
  no_status, status_eq, can_transition,
}
use ottodot_trial_booking_se.Booking.Errors.{
  Error, err_class_not_found, err_student_not_found, err_booking_not_found, err_already_booked,
  err_too_many_holds, err_class_full, err_seat_lost, err_not_holding, err_hold_still_live,
  err_invalid_transition, err_lock_wait_timeout, err_transaction_broken, foreign, triggered,
}
use ottodot_trial_booking_se.Booking.Model.{
  Actor, parent, system, payment, Booking, no_booking, max_holders, hold_is_live, HoldRequest,
  ConfirmRequest, CancelRequest, FailRequest, ExpireRequest,
}
use ottodot_trial_booking_se.Booking.Seat.{lowest_free_seat}
use ottodot_trial_booking_se.Booking.Memory.Reads.{
  Repository, has_live_booking, live_holds_for_parent, holders, seats_taken,
}

-- recordLocked
unfoldable pub record_event :
    Repository → Minted → Text → Status → Status → Actor → Text → Time → Repository × Option Error
record_event repository (mint_failed why) booking_id from to actor reason now =
    (repository, some (foreign why))
record_event repository (minted event_id) booking_id from to actor reason now = (
  record repository {
    events =
        insert booking_id
          (lookup_or [] booking_id repository.events
            ++ record {
              id = event_id;
              booking_id = booking_id;
              from_status = from;
              to_status = to;
              actor = actor;
              reason = reason;
              created_at = now;
            }
              ∷ [])
          repository.events;
  },
  none,
)

-- The end of every writing method: the error of the trail, or else the row and the method's error.
abbrev pub close :
    Repository × Option Error → Booking → Option Error → Repository × Booking × Option Error
close (repository, some err) row outcome = (repository, no_booking, some err)
close (repository, none) row outcome = (repository, row, outcome)

-- The two writes that end a method: the row, then its line in the audit trail.
unfoldable pub move :
    Repository
    → Minted
    → Booking
    → Status
    → Actor
    → Text
    → Time
    → Option Error
    → Repository × Booking × Option Error
move repository mint row from actor reason now outcome =
    close
      (record_event (record repository { bookings = insert row.id row repository.bookings }) mint
        row.id from row.status actor reason now)
      row outcome

unfoldable pub granted_of : HoldRequest → Booking
granted_of request = record {
  id = request.booking_id;
  student_id = request.student_id;
  class_id = request.class_id;
  status = pending_payment;
  seat_no = pos 0;
  hold_expires_at = request.expires_at;
  confirmed_at = 0;
  created_at = request.now;
  updated_at = request.now;
}

unfoldable pub grant : Repository → Minted → HoldRequest → Repository × Booking × Option Error
grant repository mint request =
    move repository mint (granted_of request) no_status parent (codes "hold granted") request.now
      none

unfoldable pub hold : Repository → Minted → HoldRequest → Repository × Booking × Option Error
hold repository mint request = elim (lookup request.class_id repository.classes) [
  | none ↦ (repository, no_booking, some err_class_not_found)
  | some class ↦ elim (lookup request.student_id repository.parents) [
    | none ↦ (repository, no_booking, some err_student_not_found)
    | some parent_id ↦
        if has_live_booking repository request.student_id request.class_id
        then (repository, no_booking, some err_already_booked)
        else if leb_ℤ request.max_holds_per_parent
            (pos (live_holds_for_parent repository parent_id request.now))
        then (repository, no_booking, some err_too_many_holds)
        else if leb_ℤ (max_holders class) (pos (holders repository request.class_id request.now))
        then (repository, no_booking, some err_class_full)
        else grant repository mint request
  ]
]

-- faults.PointConfirmLockWait and faults.PointConfirmBeforeCommit
abbrev pub lock_wait_point : Text
lock_wait_point = codes "confirm.lock_wait"

abbrev pub before_commit_point : Text
before_commit_point = codes "confirm.before_commit"

unfoldable pub lost_of : Booking → Time → Booking
lost_of stored now = record stored {
  status = refund_required;
  hold_expires_at = 0;
  updated_at = now;
}

unfoldable pub won_of : Booking → ℤ → Time → Booking
won_of stored seat now = record stored {
  status = confirmed;
  seat_no = seat;
  confirmed_at = now;
  hold_expires_at = 0;
  updated_at = now;
}

-- Confirm, once the seat is decided: `seat, free`.
unfoldable pub settle_seat :
    Repository → Minted → Booking → ℤ × Bool → Time → Repository × Booking × Option Error
settle_seat repository mint stored (seat, false) now =
    move repository mint (lost_of stored now) stored.status system
      (codes "no free seat under the class lock") now (some err_seat_lost)
settle_seat repository mint stored (seat, true) now =
    if triggered repository.fault before_commit_point
    then (repository, no_booking, some err_transaction_broken)
    else move repository mint (won_of stored seat now) stored.status system
        (codes "seat assigned under the class lock") now none

unfoldable pub confirm : Repository → Minted → ConfirmRequest → Repository × Booking × Option Error
confirm repository mint request =
    if triggered repository.fault lock_wait_point
    then (repository, no_booking, some err_lock_wait_timeout)
    else elim (lookup request.booking_id repository.bookings) [
      | none ↦ (repository, no_booking, some err_booking_not_found)
      | some stored ↦
          if not (status_eq stored.status pending_payment)
          then (repository, stored, some err_not_holding)
          else elim (lookup stored.class_id repository.classes) [
            | none ↦ (repository, no_booking, some err_class_not_found)
            | some class ↦
                settle_seat repository mint stored
                  (lowest_free_seat class.capacity (seats_taken repository stored.class_id))
                  request.now
          ]
    ]

unfoldable pub withdrawn_of : Booking → Time → Booking
withdrawn_of stored now = record stored {
  status = cancelled;
  seat_no = pos 0;
  hold_expires_at = 0;
  updated_at = now;
}

unfoldable pub cancel : Repository → Minted → CancelRequest → Repository × Booking × Option Error
cancel repository mint request = elim (lookup request.booking_id repository.bookings) [
  | none ↦ (repository, no_booking, some err_booking_not_found)
  | some stored ↦
      if not (can_transition stored.status cancelled)
      then (repository, stored, some err_invalid_transition)
      else move repository mint (withdrawn_of stored request.now) stored.status request.actor
          request.reason request.now none
]

unfoldable pub declined_of : Booking → Time → Booking
declined_of stored now = record stored {
  status = payment_failed;
  hold_expires_at = 0;
  updated_at = now;
}

unfoldable pub fail : Repository → Minted → FailRequest → Repository × Booking × Option Error
fail repository mint request = elim (lookup request.booking_id repository.bookings) [
  | none ↦ (repository, no_booking, some err_booking_not_found)
  | some stored ↦
      if not (status_eq stored.status pending_payment)
      then (repository, stored, some err_not_holding)
      else move repository mint (declined_of stored request.now) stored.status payment
          request.reason request.now none
]

unfoldable pub lapsed_of : Booking → Time → Booking
lapsed_of stored now = record stored { status = expired; hold_expires_at = 0; updated_at = now }

unfoldable pub expire : Repository → Minted → ExpireRequest → Repository × Booking × Option Error
expire repository mint request = elim (lookup request.booking_id repository.bookings) [
  | none ↦ (repository, no_booking, some err_booking_not_found)
  | some stored ↦
      if not (status_eq stored.status pending_payment)
      then (repository, stored, some err_not_holding)
      else if hold_is_live stored.hold_expires_at request.now
      then (repository, stored, some err_hold_still_live)
      else move repository mint (lapsed_of stored request.now) stored.status system
          (codes "hold deadline passed") request.now none
]
