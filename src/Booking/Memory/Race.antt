-- ===== src/Booking/Memory/Race.antt =====
-- repository_memory.go: two confirms at the last seat of a class.
use ottodot_trial_booking_se.Prelude.{
  subst, ◌≤◌, Text, after, arith, false, lookup, pos_part, some, suc, sym, ℤ, ◌∙◌, ◌≡◌, ◌≢◌,
}
use ottodot_trial_booking_se.Identifier.{minted}
use ottodot_trial_booking_se.Booking.Status.{pending_payment}
use ottodot_trial_booking_se.Booking.Model.{Booking, Class, ConfirmRequest}
use ottodot_trial_booking_se.Booking.Memory.Writes.{before_commit_point, confirm, lock_wait_point}
use ottodot_trial_booking_se.Booking.Memory.Schedule.{perform, classes-step, confirms}
use ottodot_trial_booking_se.Booking.Memory.Safety.{confirm-IsSound}
use ottodot_trial_booking_se.Booking.Memory.Reads.{Repository}
use ottodot_trial_booking_se.Booking.Memory.Invariant.{IsSound, stored_fits}
use ottodot_trial_booking_se.Booking.Memory.Confirm.{
  IsVacant, Loses, Wins, confirm-Loses, confirm-Wins, confirm-Wins_frame,
}
use ottodot_trial_booking_se.Booking.Memory.Capacity.{seated}
use ottodot_trial_booking_se.Booking.Errors.{triggered}

module _ (repository : Repository) (class : Class) (v : IsSound repository)
    (unlocked : triggered repository.fault lock_wait_point ≡ false)
    (unbroken : triggered repository.fault before_commit_point ≡ false) where
  -- In a sound repository with no fault armed, for two different bookings in pending_payment of one
  -- known class with one seat left: whichever confirm comes first leaves its booking confirmed with a
  -- seat within the capacity that no row of the class had, and the other leaves its booking in
  -- refund_required.
  pub last_seat_race :
      (event_a event_b : Text) (first second : ConfirmRequest) (a b : Booking)
      → first.booking_id ≢ second.booking_id
      → lookup first.booking_id repository.bookings ≡ some a
      → lookup second.booking_id repository.bookings ≡ some b
      → a.status ≡ pending_payment
      → b.status ≡ pending_payment
      → a.class_id ≡ b.class_id
      → lookup a.class_id repository.classes ≡ some class
      → suc (seated repository a.class_id) ≡ pos_part class.capacity
      → let (after, row, err) = confirm repository (minted event_a) first in
        (seat : ℤ) × Wins (after, row, err) a first.now seat
        × IsVacant repository a.class_id class seat
        × Loses (confirm after (minted event_b) second) b second.now
  last_seat_race event_a event_b first second a b distinct found_a found_b pend_a pend_b together
        known last =
      let (seat, wins, gap, more) =
        confirm-Wins repository event_a first a class v found_a pend_a known unlocked unbroken
          (omega arith) in
      let after = (confirm repository (minted event_a) first).0 in
      let same_key = (stored_fits repository first.booking_id a v found_a).0 in
      let frame =
        confirm-Wins_frame repository event_a first a class v found_a pend_a known unlocked unbroken
          (omega arith) second.booking_id (λ e. distinct (sym same_key ∙ e)) in
      let classes : after.classes ≡ repository.classes =
        unfold perform in classes-step repository (confirms (minted event_a) first) in
      (
        seat,
        wins,
        gap,
        (confirm-Loses after event_b second b class
            (confirm-IsSound repository (minted event_a) v first) (frame.0 ∙ found_b) pend_b
            (subst (λ c. lookup c after.classes ≡ some class) together (rw classes known))
            (rw (frame.1) unlocked) (rw (frame.1) unbroken)
            (subst (λ c. pos_part class.capacity ≤ seated after c) together (omega arith))).0,
      )
