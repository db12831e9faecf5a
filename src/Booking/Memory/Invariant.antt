-- ===== src/Booking/Memory/Invariant.antt =====
-- The invariant of repository_memory.go between two calls, and what keeps it through one write.
use ottodot_trial_booking_se.Booking.Seat.{occupied}
use ottodot_trial_booking_se.Booking.Model.{Actor, Booking, Class, has_seat}
use ottodot_trial_booking_se.Booking.Memory.Reads.{seat_less, seats_taken, sits_in, Repository}
use ottodot_trial_booking_se.Prelude.{
  All-map, All-of_map, All-pure, All-sort, All-unselect, any-false, lookup-All, map, select, sort,
  sym, All, Bool, List, Option, Pairwise, Text, Time, arith, eq_ℤ, eq_ℤ→eq, false, insert-All,
  insert-Pairwise, lookup, none, pos, some, text_eq, ℤ, ◌&&◌, ◌≡◌, ◌≢◌, ◌≤ℤ◌,
}
use ottodot_trial_booking_se.Identifier.{Minted, mint_failed, minted}
use ottodot_trial_booking_se.Booking.Status.{
  cancelled, expired, other, payment_failed, refund_required, status_eq, pending_payment, Status,
  confirmed, is_live,
}
use ottodot_trial_booking_se.Booking.Memory.Writes.{won_of, move, record_event}
use ottodot_trial_booking_se.Booking.Errors.{Error}

-- What the status says of the seat, in a class that may be missing.
abbrev pub SeatFits : Status → Option Class → ℤ → Type 0
SeatFits confirmed none seat = ⊥
SeatFits confirmed (some class) seat = (pos 1 ≤ℤ seat) × (seat ≤ℤ class.capacity)
SeatFits _ class seat = seat ≡ pos 0

abbrev pub RowFits : List (Text × Class) → Text × Booking → Type 0
RowFits classes (key, row) =
    (row.id ≡ key) × SeatFits row.status (lookup row.class_id classes) row.seat_no

-- Two rows own one seat.
unfoldable pub share_seat : Booking → Booking → Bool
share_seat a b = has_seat a && (eq_ℤ a.seat_no b.seat_no && text_eq a.class_id b.class_id)

-- Two rows are live for one child in one class.
unfoldable pub both_live : Booking → Booking → Bool
both_live a b =
    is_live a.status
    && (is_live b.status && (text_eq a.student_id b.student_id && text_eq a.class_id b.class_id))

abbrev pub IsApart : Text × Booking → Text × Booking → Type 0
IsApart (j, a) (k, b) = (j ≢ k) × (share_seat a b ≡ false) × (both_live a b ≡ false)

pub record IsSound (repository : Repository) : Type 0 where
  pub capacities : All (λ row. row.1.capacity ≤ℤ pos 32767) repository.classes
  pub rows : All (RowFits repository.classes) repository.bookings
  pub apart : Pairwise IsApart repository.bookings

IsApart-keyed : (a b : Text × Booking) → IsApart a b → a.0 ≢ b.0
IsApart-keyed a b h = h.0

pub IsApart-symm : (a b : Text × Booking) → IsApart a b → IsApart b a
unfolding share_seat both_live has_seat
IsApart-symm (j, a) (k, b) h =
    ground (arith, eq_ℤ→eq a.seat_no b.seat_no, eq_ℤ→eq b.seat_no a.seat_no)

-- The two writes of a method keep the invariant, if the row fits and stands apart from the others.
pub move-IsSound :
    (repository : Repository) (mint : Minted) (row : Booking) (from : Status) (actor : Actor)
    (reason : Text) (now : Time) (outcome : Option Error)
    → IsSound repository
    → RowFits repository.classes (row.id, row)
    → All (λ r. r.0 ≢ row.id → IsApart (row.id, row) r) repository.bookings
    → IsSound (move repository mint row from actor reason now outcome).0
unfolding move record_event
move-IsSound repository (mint_failed why) row from actor reason now outcome v fits away = record {
  capacities = v.capacities;
  rows = insert-All (RowFits repository.classes) row.id row repository.bookings v.rows fits;
  apart =
      insert-Pairwise IsApart row.id row repository.bookings IsApart-keyed IsApart-symm v.apart
        away;
}
move-IsSound repository (minted id) row from actor reason now outcome v fits away = record {
  capacities = v.capacities;
  rows = insert-All (RowFits repository.classes) row.id row repository.bookings v.rows fits;
  apart =
      insert-Pairwise IsApart row.id row repository.bookings IsApart-keyed IsApart-symm v.apart
        away;
}

-- A row without a seat that is not live stands apart from every other.
retired-IsApart :
    (row : Booking) (r : Text × Booking)
    → row.seat_no ≡ pos 0
    → is_live row.status ≡ false
    → r.0 ≢ row.id
    → IsApart (row.id, row) r
unfolding share_seat both_live has_seat
retired-IsApart row (k, b) seat dead n = (λ e. n (sym e), ground arith, ground arith)

pub retire-IsSound :
    (repository : Repository) (mint : Minted) (row : Booking) (from : Status) (actor : Actor)
    (reason : Text) (now : Time) (outcome : Option Error)
    → IsSound repository
    → RowFits repository.classes (row.id, row)
    → row.seat_no ≡ pos 0
    → is_live row.status ≡ false
    → IsSound (move repository mint row from actor reason now outcome).0
retire-IsSound repository mint row from actor reason now outcome v fits seat dead =
    move-IsSound repository mint row from actor reason now outcome v fits (
      All-pure (λ r. r.0 ≢ row.id → IsApart (row.id, row) r) repository.bookings
        λ r n. retired-IsApart row r seat dead n)

-- What the invariant says of a stored row.
pub stored_fits :
    (repository : Repository) (booking_id : Text) (stored : Booking)
    → IsSound repository
    → lookup booking_id repository.bookings ≡ some stored
    → RowFits repository.classes (booking_id, stored)
stored_fits repository booking_id stored v e =
    lookup-All (RowFits repository.classes) booking_id stored repository.bookings v.rows e

-- A seat that the picker finds free belongs to no row of the class.
pub free_of_rows :
    (repository : Repository) (class_id : Text) (seat : ℤ)
    → occupied (seats_taken repository class_id) seat ≡ false
    → All (λ r. (sits_in class_id r && eq_ℤ seat r.1.seat_no) ≡ false) repository.bookings
unfolding seats_taken
free_of_rows repository class_id seat h =
    let rows = select (sits_in class_id) repository.bookings in
    let seats = map (λ r. r.1.seat_no) rows in
    All-unselect (λ r. (sits_in class_id r && eq_ℤ seat r.1.seat_no) ≡ false) (sits_in class_id)
      repository.bookings (λ r e. rw e)
      (All-map (λ r. eq_ℤ seat r.1.seat_no ≡ false)
        (λ r. (sits_in class_id r && eq_ℤ seat r.1.seat_no) ≡ false) rows (λ r e. ground arith)
        (All-of_map (λ s. eq_ℤ seat s ≡ false) (λ r. r.1.seat_no) rows
          (All-sort (λ s. eq_ℤ seat s ≡ false) seat_less seats
            (any-false (eq_ℤ seat) (sort seat_less seats) h))))

-- A pending row that takes such a seat stands apart from the rows that it stood apart from.
pub won-IsApart :
    (stored : Booking) (seat : ℤ) (now : Time) (r : Text × Booking)
    → stored.status ≡ pending_payment
    → (sits_in stored.class_id r && eq_ℤ seat r.1.seat_no) ≡ false
    → IsApart (stored.id, stored) r
    → IsApart (stored.id, won_of stored seat now) r
unfolding share_seat both_live has_seat sits_in won_of is_live
won-IsApart stored seat now (k, b) pending free away =
    (away.0, ground (arith, eq_ℤ→eq seat b.seat_no), ground arith)

-- Only a confirmed row has a seat.
pub unseated :
    (status : Status) (class : Option Class) (seat : ℤ)
    → SeatFits status class seat
    → status_eq status confirmed ≡ false
    → seat ≡ pos 0
unseated confirmed class seat fits e = cc
unseated pending_payment class seat fits e = fits
unseated payment_failed class seat fits e = fits
unseated refund_required class seat fits e = fits
unseated expired class seat fits e = fits
unseated cancelled class seat fits e = fits
unseated (other s) class seat fits e = fits
