-- ===== src/Booking/Service/Examples.antt =====
-- Runs of the booking service on concrete inputs.
use ottodot_trial_booking_se.Prelude.{
  List, Text-discrete, [], arith, codes, lookup, none, pos, pos_part, refl, ℕ, ◌+◌, ◌∷◌, ◌≡◌,
}
use ottodot_trial_booking_se.Identifier.{minted}
use ottodot_trial_booking_se.Booking.Memory.Capacity.{seated}
use ottodot_trial_booking_se.Booking.Service.{seats_remaining, Policy, hold_request}
use ottodot_trial_booking_se.Booking.Service.Cap.{IsCapped, run-IsCapped}
use ottodot_trial_booking_se.Booking.Service.Remaining.{seats_remaining-adds_up}
use ottodot_trial_booking_se.Booking.Memory.Schedule.{Call, holds, run, empty-IsSound}
use ottodot_trial_booking_se.Booking.Memory.Reads.{live_holds_for_parent, Repository}
use ottodot_trial_booking_se.Booking.Model.{Class, no_class}

abbrev trial : Class
trial = record no_class { id = codes "c"; capacity = pos 2; hold_allowance = pos 1 }

abbrev opening : Repository
opening = record {
  classes = (codes "c", trial) ∷ [];
  parents = (codes "s", codes "p") ∷ [];
  bookings = [];
  events = [];
  fault = none;
}

abbrev one_hold : Policy
one_hold = record { hold_ttl = pos 600; max_holds_per_parent = pos 1 }

abbrev two_asks : List Call
two_asks =
    holds (minted (codes "1")) (
      hold_request one_hold (codes "a") (record { student_id = codes "s"; class_id = codes "c" })
        10)
    ∷ holds (minted (codes "2")) (
        hold_request one_hold (codes "b") (record { student_id = codes "s"; class_id = codes "c" })
          20)
    ∷ []

run-IsCapped_example : IsCapped (run opening two_asks) (pos 1) 20
unfolding hold_request live_holds_for_parent
run-IsCapped_example =
    run-IsCapped opening two_asks (pos 1) 5 20 (λ parent_id. omega arith)
      (omega arith, refl, (omega arith, refl, tt)) (omega arith)

seats_remaining-adds_up_example :
    (n : ℕ) × (seats_remaining opening opening (codes "c") ≡ (pos n, none))
    × (n + seated opening (codes "c") ≡ pos_part trial.capacity)
unfolding lookup Text-discrete
seats_remaining-adds_up_example =
    seats_remaining-adds_up opening opening (codes "c") trial
      (empty-IsSound opening refl (omega arith, tt)) refl refl refl
