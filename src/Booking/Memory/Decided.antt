-- ===== src/Booking/Memory/Decided.antt =====
-- repository_memory.go: the row that a confirm which decided leaves behind.
use ottodot_trial_booking_se.Payment.Provider.{answer}
use ottodot_trial_booking_se.Booking.Seat.{lowest_free_seat}
use ottodot_trial_booking_se.Prelude.{
  Option, arith, inl, inr, ◌⊎◌, Bool, Text, Time, false, insert, lookup, lookup-insert_self, none,
  not, refl, some, subst, true, ℤ, ◌≡◌, ◌≢◌,
}
use ottodot_trial_booking_se.Identifier.{Minted, mint_failed, minted}
use ottodot_trial_booking_se.Booking.Memory.Writes.{
  before_commit_point, confirm, lock_wait_point, lost_of, move, record_event, settle_seat, won_of,
}
use ottodot_trial_booking_se.Booking.Memory.Reads.{seats_taken, Repository}
use ottodot_trial_booking_se.Booking.Memory.Invariant.{IsSound, stored_fits}
use ottodot_trial_booking_se.Booking.Memory.Cases.{Outcome, on_found, on_guard}
use ottodot_trial_booking_se.Booking.Model.{Booking, ConfirmRequest, system}
use ottodot_trial_booking_se.Booking.Errors.{Error, triggered, err_seat_lost}
use ottodot_trial_booking_se.Booking.Status.{
  confirmed, Status, status_eq, refund_required, pending_payment,
}

-- The answer comes with the stored row, which has the status.
abbrev pub Leaves : Text → Status → Outcome → Type 0
Leaves booking_id status outcome =
    (lookup booking_id outcome.0.bookings ≡ some outcome.1)
    × (outcome.1.id ≡ booking_id)
    × (outcome.1.status ≡ status)

-- What the two decisions of a confirm leave: a confirmed booking, or one that is owed a refund.
abbrev pub Decided : Text → Outcome → Type 0
Decided booking_id outcome =
    (outcome.2 ≡ none → Leaves booking_id confirmed outcome)
    × (outcome.2 ≡ some err_seat_lost → Leaves booking_id refund_required outcome)

move-Leaves :
    (repository : Repository) (mint : Minted) (booking_id : Text) (row : Booking) (from : Status)
    (reason : Text) (now : Time) (outcome answer : Option Error)
    → row.id ≡ booking_id
    → (answer ≡ none) ⊎ (answer ≡ some err_seat_lost)
    → (move repository mint row from system reason now outcome).2 ≡ answer
    → Leaves booking_id row.status (move repository mint row from system reason now outcome)
unfolding move record_event
move-Leaves repository (mint_failed why) booking_id row from reason now outcome answer named d e =
    absurd (ground arith)
move-Leaves repository (minted id) booking_id row from reason now outcome answer named d e = (
  subst (λ k. lookup k (insert row.id row repository.bookings) ≡ some row) named
      (lookup-insert_self row.id row repository.bookings),
  named,
  refl,
)

move-err :
    (repository : Repository) (mint : Minted) (row : Booking) (from : Status) (reason : Text)
    (now : Time) (outcome answer : Option Error)
    → outcome ≢ answer
    → (answer ≡ none) ⊎ (answer ≡ some err_seat_lost)
    → (move repository mint row from system reason now outcome).2 ≢ answer
unfolding move record_event
move-err repository (mint_failed why) row from reason now outcome answer n d e = ground arith
move-err repository (minted id) row from reason now outcome answer n d e = n e

settle_seat-Decided :
    (repository : Repository) (mint : Minted) (booking_id : Text) (stored : Booking)
    (pick : ℤ × Bool) (now : Time)
    → stored.id ≡ booking_id
    → Decided booking_id (settle_seat repository mint stored pick now)
unfolding settle_seat lost_of won_of
settle_seat-Decided repository mint booking_id stored (seat, false) now named = (
  (λ e. absurd (
      move-err repository mint (lost_of stored now) stored.status _ now (some err_seat_lost) none
        (λ k. cc) (inl refl) e)),
  (λ e.
      move-Leaves repository mint booking_id (lost_of stored now) stored.status _ now
        (some err_seat_lost) (some err_seat_lost) named (inr refl) e),
)
settle_seat-Decided repository mint booking_id stored (seat, true) now named =
    on_guard (Decided booking_id) (triggered repository.fault before_commit_point) _ _
      ((λ e. absurd cc), (λ e. absurd cc))
      λ _. (
        (λ e.
            move-Leaves repository mint booking_id (won_of stored seat now) stored.status _ now none
              none named (inl refl) e),
        (λ e. absurd (
            move-err repository mint (won_of stored seat now) stored.status _ now none
              (some err_seat_lost) (λ k. cc) (inr refl) e)),
      )

pub confirm-Decided :
    (repository : Repository) (mint : Minted) (request : ConfirmRequest)
    → IsSound repository
    → Decided request.booking_id (confirm repository mint request)
unfolding confirm
confirm-Decided repository mint request v =
    on_guard (Decided request.booking_id) (triggered repository.fault lock_wait_point) _ _
      ((λ e. absurd cc), (λ e. absurd cc))
      λ _.
        on_found (Decided request.booking_id) (lookup request.booking_id repository.bookings) _ _
          ((λ e. absurd cc), (λ e. absurd cc))
          λ stored found.
            on_guard (Decided request.booking_id) (not (status_eq stored.status pending_payment)) _
              _ ((λ e. absurd cc), (λ e. absurd cc))
              λ _.
                on_found (Decided request.booking_id) (lookup stored.class_id repository.classes) _
                  _ ((λ e. absurd cc), (λ e. absurd cc))
                  λ class _.
                    settle_seat-Decided repository mint request.booking_id stored
                      (lowest_free_seat class.capacity (seats_taken repository stored.class_id))
                      request.now (stored_fits repository request.booking_id stored v found).0
