-- ===== src/Booking/Service/Remaining.antt =====
-- service.go: the advisory number of free seats against the rows of the class.
use ottodot_trial_booking_se.Prelude.{
  Text, ap, arith, false, is_empty, lookup, negsuc, none, pos, pos_part, refl, some, ℕ, ℤ, ◌+◌,
  ◌-ℤ◌, ◌-◌, ◌≡◌, ◌≤◌,
}
use ottodot_trial_booking_se.Booking.Model.{Class}
use ottodot_trial_booking_se.Booking.Memory.Reads.{Repository, get_class}
use ottodot_trial_booking_se.Booking.Memory.Invariant.{IsSound}
use ottodot_trial_booking_se.Booking.Memory.Capacity.{
  length-seats_taken, seated, seated-le-capacity,
}
use ottodot_trial_booking_se.Booking.Service.{left_over, seats_remaining, read_class}

read_class-found :
    (repository : Repository) (class_id : Text) (class : Class)
    → is_empty class_id ≡ false
    → lookup class_id repository.classes ≡ some class
    → read_class repository class_id ≡ (class, none)
unfolding read_class get_class
read_class-found repository class_id class n e = rw (n, e, get_class) refl

-- For a known class and two repositories that both hold it, the one that the class is read from
-- and the sound one that the seats are read from: the free seats that are shown and the rows with a seat at
-- the second read add up to the capacity (to 0 where the capacity is negative).
pub seats_remaining-adds_up :
    (repository then_on : Repository) (class_id : Text) (class : Class)
    → IsSound then_on
    → is_empty class_id ≡ false
    → lookup class_id repository.classes ≡ some class
    → lookup class_id then_on.classes ≡ some class
    → (n : ℕ) × (seats_remaining repository then_on class_id ≡ (pos n, none))
      × (n + seated then_on class_id ≡ pos_part class.capacity)
unfolding seats_remaining ◌-ℤ◌
seats_remaining-adds_up repository then_on class_id class v n e e' =
    let room = seated-le-capacity then_on class_id class v e' in
    let counted = length-seats_taken then_on class_id in
    let found = read_class-found repository class_id class n e in
    let ok : (read_class repository class_id).1 ≡ none = ap (λ r. r.1) found in
    let here : (read_class repository class_id).0 ≡ class = ap (λ r. r.0) found in
    (
      pos_part class.capacity - seated then_on class_id,
      rw (ok, here, counted, seats_remaining)
          (ap (λ z. (z, none)) (left (class.capacity) (seated then_on class_id) room)),
      omega (arith, room),
    )
  where
    left : (c : ℤ) (s : ℕ) → s ≤ pos_part c → left_over (c -ℤ pos s) ≡ pos (pos_part c - s)
    left (pos c) s h = ground arith
    left (negsuc c) s h = ground arith
