-- ===== src/Booking/Memory/Rollback.antt =====
-- repository_memory.go: the error paths of the methods that write.
use ottodot_trial_booking_se.Booking.Memory.Cases.{
  Outcome, on_cancel, on_confirm, on_expire, on_fail, on_hold,
}
use ottodot_trial_booking_se.Prelude.{
  some-injective, sym, ◌∙◌, Option, Text, Time, none, refl, some, ◌≡◌, ◌≢◌,
}
use ottodot_trial_booking_se.Identifier.{Minted, mint_failed, minted}
use ottodot_trial_booking_se.Booking.Status.{Status}
use ottodot_trial_booking_se.Booking.Model.{Actor, Booking}
use ottodot_trial_booking_se.Booking.Memory.Writes.{move, record_event}
use ottodot_trial_booking_se.Booking.Memory.Schedule.{
  Call, adds_student, cancels, confirms, expires, fails, holds, injects, perform, step,
}
use ottodot_trial_booking_se.Booking.Memory.Reads.{Repository}
use ottodot_trial_booking_se.Booking.Errors.{Error, err_seat_lost}

-- The identifiers of the call were minted.
abbrev pub IsMinted : Minted → Type 0
IsMinted (minted id) = Unit {0}
IsMinted (mint_failed why) = ⊥

abbrev pub MintsOf : Call → Type 0
MintsOf (holds mint request) = IsMinted mint
MintsOf (confirms mint request) = IsMinted mint
MintsOf (cancels mint request) = IsMinted mint
MintsOf (fails mint request) = IsMinted mint
MintsOf (expires mint request) = IsMinted mint
MintsOf (injects fault) = Unit {0}
MintsOf (adds_student student_id parent_id) = Unit {0}

-- With its identifier minted, a pair of writes gives the method's own outcome.
move_outcome :
    (repository : Repository) (mint : Minted) (row : Booking) (from : Status) (actor : Actor)
    (reason : Text) (now : Time) (outcome : Option Error)
    → IsMinted mint
    → (move repository mint row from actor reason now outcome).2 ≡ outcome
unfolding move record_event
move_outcome repository (minted id) row from actor reason now outcome m = refl
move_outcome repository (mint_failed why) row from actor reason now outcome m = absurd m

-- What a method may answer: an error other than the lost seat leaves the repository as it was.
abbrev Unwritten : Repository → Outcome → Type 0
Unwritten repository outcome =
    (err : Error) → outcome.2 ≡ some err → err ≢ err_seat_lost → outcome.0 ≡ repository

module _ (repository : Repository) (mint : Minted) (m : IsMinted mint) where
  refused : (row : Booking) (e : Option Error) → Unwritten repository (repository, row, e)
  refused row e err h n = refl

  settled :
      (row : Booking) (from : Status) (actor : Actor) (reason : Text) (now : Time)
      → Unwritten repository (move repository mint row from actor reason now none)
  settled row from actor reason now err h n =
      let e : none ≡ some err =
        sym (move_outcome repository mint row from actor reason now none m) ∙ h in
      cc

  lost :
      (row : Booking) (from : Status) (actor : Actor) (reason : Text) (now : Time)
      → Unwritten repository (move repository mint row from actor reason now (some err_seat_lost))
  lost row from actor reason now err h n =
      let e : some err_seat_lost ≡ some err =
        sym (move_outcome repository mint row from actor reason now (some err_seat_lost) m) ∙ h in
      absurd (n (sym (some-injective err_seat_lost err e)))

-- An error that is not the lost seat, and with the identifier minted: nothing was written. So it is
-- for the guards of every method, for a lock that is not had in time, and for a transaction that
-- breaks after the seat was decided.
pub error-unchanged :
    (repository : Repository) (call : Call) (err : Error)
    → MintsOf call
    → (perform repository call).2 ≡ some err
    → err ≢ err_seat_lost
    → step repository call ≡ repository
unfolding perform
error-unchanged repository (holds mint request) err m e n =
    on_hold (Unwritten repository) repository mint (refused repository mint m)
      (settled repository mint m) request err e n
error-unchanged repository (confirms mint request) err m e n =
    on_confirm (Unwritten repository) repository mint (refused repository mint m)
      (settled repository mint m) (lost repository mint m) request err e n
error-unchanged repository (cancels mint request) err m e n =
    on_cancel (Unwritten repository) repository mint (refused repository mint m)
      (settled repository mint m) request err e n
error-unchanged repository (fails mint request) err m e n =
    on_fail (Unwritten repository) repository mint (refused repository mint m)
      (settled repository mint m) request err e n
error-unchanged repository (expires mint request) err m e n =
    on_expire (Unwritten repository) repository mint (refused repository mint m)
      (settled repository mint m) request err e n
error-unchanged repository (injects fault) err m e n = cc
error-unchanged repository (adds_student student_id parent_id) err m e n = cc
