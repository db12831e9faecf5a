-- ===== src/Booking/Memory/Schedule.antt =====
-- The repository over a schedule of calls, in any order. The mutex of repository_memory.go makes
-- each call one step, so a schedule is every interleaving that concurrent callers can produce.
use ottodot_trial_booking_se.Booking.Status.{Status}
use ottodot_trial_booking_se.Booking.Memory.Cases.{
  Outcome, on_cancel, on_confirm, on_expire, on_fail, on_hold,
}
use ottodot_trial_booking_se.Booking.Memory.Capacity.{seated, seated-le-capacity}
use ottodot_trial_booking_se.Booking.Memory.Safety.{
  cancel-IsSound, confirm-IsSound, expire-IsSound, fail-IsSound, hold-IsSound,
}
use ottodot_trial_booking_se.Prelude.{
  none, Option, Time, arith, lookup, pos_part, refl, some, ◌∙◌, ◌≤◌, All, List, Pairwise, Text, [],
  pos, subst, sym, ◌∷◌, ◌≡◌, ◌≤ℤ◌,
}
use ottodot_trial_booking_se.Identifier.{Minted}
use ottodot_trial_booking_se.Booking.Model.{
  no_booking, Actor, Booking, Class, CancelRequest, ConfirmRequest, ExpireRequest, FailRequest,
  HoldRequest,
}
use ottodot_trial_booking_se.Booking.Memory.Writes.{
  move, record_event, cancel, confirm, expire, fail, hold,
}
use ottodot_trial_booking_se.Booking.Memory.Reads.{Repository, add_student, inject_faults}
use ottodot_trial_booking_se.Booking.Memory.Invariant.{IsApart, IsSound, RowFits}
use ottodot_trial_booking_se.Booking.Errors.{err_seat_lost, Error, Fault}

-- A call of a method that changes the repository, with what its call of NewUUIDv7 gives.
pub data Call : Type 0 where
  holds : Minted → HoldRequest → Call
  confirms : Minted → ConfirmRequest → Call
  cancels : Minted → CancelRequest → Call
  fails : Minted → FailRequest → Call
  expires : Minted → ExpireRequest → Call
  injects : Fault → Call
  adds_student : Text → Text → Call

-- The call, and what it returns. The two setters return nothing.
unfoldable pub perform : Repository → Call → Outcome
perform repository (holds mint request) = hold repository mint request
perform repository (confirms mint request) = confirm repository mint request
perform repository (cancels mint request) = cancel repository mint request
perform repository (fails mint request) = fail repository mint request
perform repository (expires mint request) = expire repository mint request
perform repository (injects fault) = (inject_faults repository fault, no_booking, none)
perform repository (adds_student student_id parent_id) =
    (add_student repository student_id parent_id, no_booking, none)

abbrev pub step : Repository → Call → Repository
step repository call = (perform repository call).0

unfoldable pub run : Repository → List Call → Repository
run repository [] = repository
run repository (call ∷ calls) = run (step repository call) calls

pub step-IsSound :
    (repository : Repository) (call : Call) → IsSound repository → IsSound (step repository call)
unfolding perform inject_faults add_student
step-IsSound repository (holds mint request) v = hold-IsSound repository mint v request
step-IsSound repository (confirms mint request) v = confirm-IsSound repository mint v request
step-IsSound repository (cancels mint request) v = cancel-IsSound repository mint v request
step-IsSound repository (fails mint request) v = fail-IsSound repository mint v request
step-IsSound repository (expires mint request) v = expire-IsSound repository mint v request
step-IsSound repository (injects fault) v = record {
  capacities = v.capacities;
  rows = v.rows;
  apart = v.apart;
}
step-IsSound repository (adds_student student_id parent_id) v = record {
  capacities = v.capacities;
  rows = v.rows;
  apart = v.apart;
}

-- Every schedule of calls, with every fault injected and every identifier that fails to be minted,
-- leaves a sound repository sound: confirmed rows and no others have a seat, the seat lies within the
-- capacity of the class, no two rows own one seat, and no child has two live rows in one class.
pub run-IsSound :
    (repository : Repository) (calls : List Call)
    → IsSound repository
    → IsSound (run repository calls)
unfolding run
run-IsSound repository [] v = v
run-IsSound repository (call ∷ calls) v =
    run-IsSound (step repository call) calls (step-IsSound repository call v)

-- Classes are put in before the calls: a repository without rows is sound if the capacities are
-- those of an int16.
pub empty-IsSound :
    (repository : Repository)
    → repository.bookings ≡ []
    → All (λ row. row.1.capacity ≤ℤ pos 32767) repository.classes
    → IsSound repository
empty-IsSound repository e h = record {
  capacities = h;
  rows = subst (All (RowFits repository.classes)) (sym e) tt;
  apart = subst (Pairwise IsApart) (sym e) tt;
}

abbrev SameClasses : Repository → Outcome → Type 0
SameClasses repository outcome = outcome.0.classes ≡ repository.classes

move_classes :
    (repository : Repository) (mint : Minted) (outcome : Option Error) (row : Booking)
    (from : Status) (actor : Actor) (reason : Text) (now : Time)
    → SameClasses repository (move repository mint row from actor reason now outcome)
unfolding move record_event
move_classes repository mint outcome row from actor reason now = ground arith

-- No call changes the classes.
pub classes-step :
    (repository : Repository) (call : Call) → (step repository call).classes ≡ repository.classes
unfolding perform inject_faults add_student
classes-step repository (holds mint request) =
    on_hold (SameClasses repository) repository mint (λ row e. refl)
      (move_classes repository mint none) request
classes-step repository (confirms mint request) =
    on_confirm (SameClasses repository) repository mint (λ row e. refl)
      (move_classes repository mint none) (move_classes repository mint (some err_seat_lost))
      request
classes-step repository (cancels mint request) =
    on_cancel (SameClasses repository) repository mint (λ row e. refl)
      (move_classes repository mint none) request
classes-step repository (fails mint request) =
    on_fail (SameClasses repository) repository mint (λ row e. refl)
      (move_classes repository mint none) request
classes-step repository (expires mint request) =
    on_expire (SameClasses repository) repository mint (λ row e. refl)
      (move_classes repository mint none) request
classes-step repository (injects fault) = refl
classes-step repository (adds_student student_id parent_id) = refl

pub classes-run :
    (repository : Repository) (calls : List Call)
    → (run repository calls).classes ≡ repository.classes
unfolding run
classes-run repository [] = refl
classes-run repository (call ∷ calls) =
    classes-run (step repository call) calls ∙ classes-step repository call

-- From a sound repository, however the calls of all parents interleave and whatever fails on the
-- way, a known class never has more seated rows than its capacity.
pub never_oversold :
    (repository : Repository) (calls : List Call) (class_id : Text) (class : Class)
    → IsSound repository
    → lookup class_id repository.classes ≡ some class
    → seated (run repository calls) class_id ≤ pos_part class.capacity
never_oversold repository calls class_id class v known =
    seated-le-capacity (run repository calls) class_id class (run-IsSound repository calls v)
      (rw (classes-run repository calls) known)
