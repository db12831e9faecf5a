-- ===== src/Booking/Memory/Capacity.antt =====
-- repository_memory.go: the number of seated rows of a class, against its capacity.
use ottodot_trial_booking_se.Booking.Seat.{occupied}
use ottodot_trial_booking_se.Booking.Status.{Status, confirmed, pending_payment}
use ottodot_trial_booking_se.Prelude.{
  All-sort, any-false, sort, ◌<◌, ◌∷◌, All-select, All-select_test, All-to_map, All-zip, Option,
  Pairwise-among, Pairwise-map, Pairwise-select, leb_ℤ, length-le_of_within, none, pos_part,
  some-injective, subst, sym, ◌≤◌, All, List, Pairwise, Text, arith, eq_ℤ, eq_ℤ→eq, false, length,
  length-map, length-select, length-sort, lookup, map, pos, select, some, tally, true, ℕ, ℤ, ◌∙◌,
  ◌≡◌, ◌≤ℤ◌,
}
use ottodot_trial_booking_se.Booking.Model.{Booking, Class, has_seat}
use ottodot_trial_booking_se.Booking.Memory.Reads.{Repository, seat_less, seats_taken, sits_in}
use ottodot_trial_booking_se.Booking.Memory.Invariant.{
  IsSound, SeatFits, IsApart, RowFits, share_seat,
}

-- How many rows of the class have a seat.
unfoldable pub seated : Repository → Text → ℕ
seated repository class_id = tally (sits_in class_id) repository.bookings

pub length-seats_taken :
    (repository : Repository) (class_id : Text)
    → length (seats_taken repository class_id) ≡ seated repository class_id
unfolding seats_taken seated
length-seats_taken repository class_id =
    let rows = select (sits_in class_id) repository.bookings in
    length-sort seat_less (map (λ r. r.1.seat_no) rows)
    ∙ length-map (λ r. r.1.seat_no) rows
    ∙ length-select (sits_in class_id) repository.bookings

-- Two rows that sit in one class have different seats.
different_seats :
    (class_id : Text) (a b : Text × Booking)
    → sits_in class_id a ≡ true
    → sits_in class_id b ≡ true
    → IsApart a b
    → eq_ℤ a.1.seat_no b.1.seat_no ≡ false
unfolding sits_in share_seat has_seat
different_seats class_id (j, a) (k, b) p q h = ground (arith, eq_ℤ→eq a.seat_no b.seat_no)

seated_fits :
    (status : Status) (found : Option Class) (class : Class) (seat : ℤ)
    → found ≡ some class
    → SeatFits status found seat
    → leb_ℤ (pos 1) seat ≡ true
    → (pos 1 ≤ℤ seat) × (seat ≤ℤ pos (pos_part class.capacity))
seated_fits status none class seat e fits s = cc
seated_fits status (some found) class seat e fits s = within status fits
  where
    same : found ≡ class
    same = some-injective found class e

    within :
        (status : Status)
        → SeatFits status (some found) seat
        → (pos 1 ≤ℤ seat) × (seat ≤ℤ pos (pos_part class.capacity))
    within confirmed fits = (fits.0, rw (← same) (omega (arith, fits.0, fits.1)))
    within pending_payment fits = absurd (ground arith)
    within _ fits = absurd (ground arith)

-- A row that sits in a class has a seat within its capacity.
seat_within :
    (classes : List (Text × Class)) (class_id : Text) (class : Class) (r : Text × Booking)
    → lookup class_id classes ≡ some class
    → RowFits classes r
    → sits_in class_id r ≡ true
    → (pos 1 ≤ℤ r.1.seat_no) × (r.1.seat_no ≤ℤ pos (pos_part class.capacity))
unfolding sits_in has_seat
seat_within classes class_id class (k, b) known fits s =
    let here : b.class_id ≡ class_id = ground arith in
    let held : leb_ℤ (pos 1) b.seat_no ≡ true = ground arith in
    seated_fits b.status (lookup b.class_id classes) class b.seat_no
      (subst (λ c. lookup c classes ≡ some class) (sym here) known) fits.1 held

-- The seats of the class in the order of the rows.
abbrev pub class_seats : Repository → Text → List ℤ
class_seats repository class_id =
    map (λ r. r.1.seat_no) (select (sits_in class_id) repository.bookings)

-- A seat that is not occupied is none of the class's.
pub seats-away :
    (repository : Repository) (class_id : Text) (seat : ℤ)
    → occupied (seats_taken repository class_id) seat ≡ false
    → All (λ s. eq_ℤ seat s ≡ false) (class_seats repository class_id)
unfolding seats_taken
seats-away repository class_id seat gap =
    let seats = class_seats repository class_id in
    All-sort (λ s. eq_ℤ seat s ≡ false) seat_less seats
      (any-false (eq_ℤ seat) (sort seat_less seats) gap)

module _ (repository : Repository) (class_id : Text) (class : Class) (v : IsSound repository)
    (known : lookup class_id repository.classes ≡ some class) where
  sitting : All (λ r. sits_in class_id r ≡ true) (select (sits_in class_id) repository.bookings)
  sitting =
      All-select_test (λ r. sits_in class_id r ≡ true) (sits_in class_id) repository.bookings
        (λ r e. e)

  pub class_seats_distinct : Pairwise (λ a b. eq_ℤ a b ≡ false) (class_seats repository class_id)
  class_seats_distinct =
      let rows = select (sits_in class_id) repository.bookings in
      Pairwise-map (λ a b. eq_ℤ a b ≡ false) (λ r. r.1.seat_no) rows
        (Pairwise-among (λ r. sits_in class_id r ≡ true) IsApart
          (λ a b. eq_ℤ a.1.seat_no b.1.seat_no ≡ false) rows
          (λ a b p q h. different_seats class_id a b p q h) sitting
          (Pairwise-select IsApart (sits_in class_id) repository.bookings v.apart))

  pub class_seats_within :
      All
        (λ s. (pos 1 ≤ℤ s) × (s ≤ℤ pos (pos_part class.capacity)))
        (class_seats repository class_id)
  class_seats_within =
      let rows = select (sits_in class_id) repository.bookings in
      All-to_map (λ s. (pos 1 ≤ℤ s) × (s ≤ℤ pos (pos_part class.capacity))) (λ r. r.1.seat_no) rows
        (All-zip (RowFits repository.classes) (λ r. sits_in class_id r ≡ true)
          (λ r. (pos 1 ≤ℤ r.1.seat_no) × (r.1.seat_no ≤ℤ pos (pos_part class.capacity))) rows
          (λ r fits s. seat_within repository.classes class_id class r known fits s)
          (All-select (RowFits repository.classes) (sits_in class_id) repository.bookings v.rows)
          sitting)

  pub length-class_seats : length (class_seats repository class_id) ≡ seated repository class_id
  unfolding seated
  length-class_seats =
      length-map (λ r. r.1.seat_no) (select (sits_in class_id) repository.bookings)
      ∙ length-select (sits_in class_id) repository.bookings

  -- The rows with a seat in a class are at most as many as its seats, in every sound repository.
  pub seated-le-capacity : seated repository class_id ≤ pos_part class.capacity
  seated-le-capacity = omega (
    arith,
    length-le_of_within (pos_part class.capacity) (class_seats repository class_id)
        class_seats_distinct class_seats_within,
    length-class_seats,
  )

  -- A seat within the capacity that nobody has leaves room for one more row.
  pub free-room :
      (seat : ℤ)
      → pos 1 ≤ℤ seat
      → seat ≤ℤ class.capacity
      → occupied (seats_taken repository class_id) seat ≡ false
      → seated repository class_id < pos_part class.capacity
  free-room seat low high gap =
      let seats = class_seats repository class_id in
      omega (
        arith,
        length-le_of_within (pos_part class.capacity) (seat ∷ seats)
            (seats-away repository class_id seat gap, class_seats_distinct)
            ((low, omega arith), class_seats_within),
        length-class_seats,
      )
