-- ===== src/Booking/Examples.antt =====
-- A class with one seat, two children who hold places in it, and the theorems at this input.
use ottodot_trial_booking_se.Booking.Seat.Laws.{as_row, lowest_free_seat-eq-query}
use ottodot_trial_booking_se.Booking.Seat.{free_seat_query, lowest_free_seat}
use ottodot_trial_booking_se.Booking.Memory.Trail.Methods.{run-IsTrailed}
use ottodot_trial_booking_se.Booking.Memory.Trail.{IsTrailed}
use ottodot_trial_booking_se.Booking.Memory.Rollback.{error-unchanged}
use ottodot_trial_booking_se.Booking.Memory.Race.{last_seat_race}
use ottodot_trial_booking_se.Booking.Memory.Confirm.{
  IsVacant, Loses, Wins, confirm-Loses, confirm-Wins,
}
use ottodot_trial_booking_se.Booking.Errors.{err_booking_not_found, triggered}
use ottodot_trial_booking_se.Prelude.{
  after, ne_of_text_eq, suc, ℤ, ◌≡◌, List, Text, Text-discrete, [], arith, codes, lookup, none, pos,
  pos_part, refl, ◌∷◌, ◌≤◌,
}
use ottodot_trial_booking_se.Identifier.{minted}
use ottodot_trial_booking_se.Booking.Status.{confirmed, is_live, no_status, pending_payment}
use ottodot_trial_booking_se.Booking.Model.{
  HoldRequest, Booking, Class, ConfirmRequest, Event, has_seat, no_booking, no_class, parent,
}
use ottodot_trial_booking_se.Booking.Memory.Writes.{cancel, confirm}
use ottodot_trial_booking_se.Booking.Memory.Schedule.{
  holds, cancels, perform, step, Call, confirms, never_oversold, run, run-IsSound,
}
use ottodot_trial_booking_se.Booking.Memory.Reads.{sits_in, Repository}
use ottodot_trial_booking_se.Booking.Memory.Invariant.{IsApart, IsSound, both_live, share_seat}
use ottodot_trial_booking_se.Booking.Memory.Capacity.{seated}

abbrev trial : Class
trial = record no_class { id = codes "c"; capacity = pos 1; hold_allowance = pos 1 }

abbrev holding : Text → Text → Booking
holding id student = record no_booking {
  id = id;
  student_id = student;
  class_id = codes "c";
  status = pending_payment;
  hold_expires_at = 100;
  created_at = 10;
  updated_at = 10;
}

abbrev line : Text → Text → Event
line id booking = record {
  id = id;
  booking_id = booking;
  from_status = no_status;
  to_status = pending_payment;
  actor = parent;
  reason = codes "hold granted";
  created_at = 10;
}

abbrev two_holds : Repository
two_holds = record {
  classes = (codes "c", trial) ∷ [];
  parents = (codes "s", codes "p") ∷ (codes "t", codes "q") ∷ [];
  bookings =
      (codes "a", holding (codes "a") (codes "s"))
      ∷ (codes "b", holding (codes "b") (codes "t"))
      ∷ [];
  events =
      (codes "a", line (codes "1") (codes "a") ∷ [])
      ∷ (codes "b", line (codes "2") (codes "b") ∷ [])
      ∷ [];
  fault = none;
}

abbrev pay : Text → ConfirmRequest
pay id = record { booking_id = id; now = 50 }

abbrev schedule : List Call
schedule =
    confirms (minted (codes "3")) (pay (codes "a"))
    ∷ confirms (minted (codes "4")) (pay (codes "b"))
    ∷ []

two_holds-IsApart :
    IsApart
      (codes "a", holding (codes "a") (codes "s"))
      (codes "b", holding (codes "b") (codes "t"))
unfolding share_seat both_live has_seat is_live Text-discrete
two_holds-IsApart = (ne_of_text_eq _ _ refl, refl, refl)

two_holds-IsSound : IsSound two_holds
unfolding lookup Text-discrete
two_holds-IsSound = record {
  capacities = (omega arith, tt);
  rows = ((refl, refl), ((refl, refl), tt));
  apart = ((two_holds-IsApart, tt), (tt, tt));
}

never_oversold_example : seated (run two_holds schedule) (codes "c") ≤ pos_part trial.capacity
unfolding lookup Text-discrete
never_oversold_example = never_oversold two_holds schedule (codes "c") trial two_holds-IsSound refl

run-IsSound_example : IsSound (run two_holds schedule)
run-IsSound_example = run-IsSound two_holds schedule two_holds-IsSound

last_seat_race_example :
    let (after, row, err) = confirm two_holds (minted (codes "3")) (pay (codes "a")) in
    (seat : ℤ) × Wins (after, row, err) (holding (codes "a") (codes "s")) 50 seat
    × IsVacant two_holds (codes "c") trial seat
    × Loses
        (confirm after (minted (codes "4")) (pay (codes "b")))
        (holding (codes "b") (codes "t"))
        50
unfolding lookup Text-discrete triggered seated sits_in has_seat
last_seat_race_example =
    last_seat_race two_holds trial two_holds-IsSound refl refl (codes "3") (codes "4")
      (pay (codes "a")) (pay (codes "b")) (holding (codes "a") (codes "s"))
      (holding (codes "b") (codes "t")) (ne_of_text_eq _ _ refl) refl refl refl refl refl refl refl

confirm-Wins_example :
    (seat : ℤ) × Wins
      (confirm two_holds (minted (codes "3")) (pay (codes "a")))
      (holding (codes "a") (codes "s"))
      50
      seat
    × IsVacant two_holds (codes "c") trial seat
    × (seated (confirm two_holds (minted (codes "3")) (pay (codes "a"))).0 (codes "c")
        ≡ suc (seated two_holds (codes "c")))
unfolding lookup Text-discrete triggered seated sits_in has_seat
confirm-Wins_example =
    confirm-Wins two_holds (codes "3") (pay (codes "a")) (holding (codes "a") (codes "s")) trial
      two_holds-IsSound refl refl refl refl refl (omega arith)

abbrev sold_out : Repository
sold_out = record two_holds {
  bookings =
      (
        codes "a",
        record (holding (codes "a") (codes "s")) {
          status = confirmed;
          seat_no = pos 1;
          hold_expires_at = 0;
          confirmed_at = 40;
          updated_at = 40;
        },
      )
      ∷ (codes "b", holding (codes "b") (codes "t"))
      ∷ [];
}

sold_out-IsSound : IsSound sold_out
unfolding lookup Text-discrete share_seat both_live has_seat is_live
sold_out-IsSound = record {
  capacities = (omega arith, tt);
  rows = ((refl, (omega arith, omega arith)), ((refl, refl), tt));
  apart = (((ne_of_text_eq _ _ refl, refl, refl), tt), (tt, tt));
}

confirm-Loses_example :
    Loses
      (confirm sold_out (minted (codes "4")) (pay (codes "b")))
      (holding (codes "b") (codes "t"))
      50
    × (seated (confirm sold_out (minted (codes "4")) (pay (codes "b"))).0 (codes "c")
        ≡ seated sold_out (codes "c"))
unfolding lookup Text-discrete triggered seated sits_in has_seat
confirm-Loses_example =
    confirm-Loses sold_out (codes "4") (pay (codes "b")) (holding (codes "b") (codes "t")) trial
      sold_out-IsSound refl refl refl refl refl (omega arith)

abbrev empty_class : Repository
empty_class = record two_holds { bookings = []; events = [] }

empty_class-IsSound : IsSound empty_class
empty_class-IsSound = record { capacities = (omega arith, tt); rows = tt; apart = tt }

empty_class-IsTrailed : IsTrailed empty_class
unfolding lookup
empty_class-IsTrailed = record { trails = λ key row found. cc; untouched = λ key gone. refl }

abbrev ask : Text → Text → HoldRequest
ask id student = record {
  booking_id = id;
  student_id = student;
  class_id = codes "c";
  now = 10;
  expires_at = 100;
  max_holds_per_parent = pos 3;
}

abbrev visit : List Call
visit =
    holds (minted (codes "1")) (ask (codes "a") (codes "s"))
    ∷ confirms (minted (codes "3")) (pay (codes "a"))
    ∷ []

run-IsTrailed_example : IsTrailed (run empty_class visit)
unfolding lookup
run-IsTrailed_example =
    run-IsTrailed empty_class visit ((tt, refl), (tt, tt)) empty_class-IsSound empty_class-IsTrailed

abbrev stray : Call
stray =
    cancels (minted (codes "5"))
      (record { booking_id = codes "z"; actor = parent; reason = []; now = 60 })

error-unchanged_example : step sold_out stray ≡ sold_out
unfolding lookup Text-discrete cancel perform
error-unchanged_example = error-unchanged sold_out stray err_booking_not_found tt refl (λ e. cc)

lowest_free_seat-eq-query_example :
    as_row (lowest_free_seat (pos 3) (pos 1 ∷ pos 3 ∷ []))
    ≡ free_seat_query (pos 3) (pos 1 ∷ pos 3 ∷ [])
lowest_free_seat-eq-query_example =
    lowest_free_seat-eq-query (pos 3) (pos 1 ∷ pos 3 ∷ []) (omega arith)
