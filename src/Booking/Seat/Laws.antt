-- ===== src/Booking/Seat/Laws.antt =====
-- seat.go: the seat picker against its query and against the set of the seats.
use ottodot_trial_booking_se.Prelude.{
  subst, ℕ, zero, suc, ◌+◌, ◌≤◌, Bool, true, false, not, ◌≡◌, refl, inl, inr, Option, none, some,
  List, ℤ, pos, negsuc, pos_part, ◌≤ℤ◌, to_int16_small, select, Bool-cases, Upto, arith,
}
use ottodot_trial_booking_se.Booking.Seat.{
  occupied, scan_seats, lowest_free_seat, generate_series, first, free_seat_query,
}

-- The answer of the picker as the query gives it: no row is `false`.
abbrev pub as_row : ℤ × Bool → Option ℤ
as_row (seat, true) = some seat
as_row (seat, false) = none

as_row-scan_seats :
    (rounds seat : ℕ) (taken : List ℤ)
    → seat + rounds ≤ 32768
    → as_row (scan_seats rounds seat taken)
      ≡ first (select (λ s. not (occupied taken s)) (generate_series rounds seat))
unfolding scan_seats generate_series
as_row-scan_seats zero seat taken h = refl
as_row-scan_seats (suc rounds) seat taken h =
    rw (to_int16_small seat (omega arith)) (elim (Bool-cases (occupied taken (pos seat))) [
      | inl e ↦ rw e (as_row-scan_seats rounds (suc seat) taken (omega arith))
      | inr e ↦ rw e refl
    ])

-- For every capacity of an int16, the picker answers what the query of the confirm transaction
-- answers: the same seat, or none.
pub lowest_free_seat-eq-query :
    (capacity : ℤ) (taken : List ℤ)
    → capacity ≤ℤ pos 32767
    → as_row (lowest_free_seat capacity taken) ≡ free_seat_query capacity taken
unfolding lowest_free_seat free_seat_query generate_series
lowest_free_seat-eq-query (negsuc n) taken h = ground arith
lowest_free_seat-eq-query (pos zero) taken h = ground arith
lowest_free_seat-eq-query (pos (suc n)) taken h =
    ground (arith, as_row-scan_seats (suc n) 1 taken (omega arith))

abbrev IsTaken : List ℤ → ℕ → Type 0
IsTaken taken m = occupied taken (pos m) ≡ true

-- What the loop found, when it starts behind the seats 1..b, all of them taken.
scan_seats_some :
    (rounds b : ℕ) (taken : List ℤ) (s : ℤ)
    → b + rounds ≤ 32767
    → Upto (IsTaken taken) b
    → scan_seats rounds (suc b) taken ≡ (s, true)
    → (n : ℕ) × (s ≡ pos (suc n))
      × (suc n ≤ b + rounds)
      × (occupied taken (pos (suc n)) ≡ false)
      × Upto (IsTaken taken) n
unfolding scan_seats
scan_seats_some zero b taken s l u e = cc
scan_seats_some (suc rounds) b taken s l u e = elim (Bool-cases (occupied taken (pos (suc b)))) [
  | inl t ↦
      let e' : scan_seats rounds (suc (suc b)) taken ≡ (s, true) =
        rw (to_int16_small (suc b) (omega arith), t) at e in
      let (n, same, below, gap, rest) =
        scan_seats_some rounds (suc b) taken s (omega arith) (t, u) e' in
      (n, same, omega arith, gap, rest)
  | inr t ↦
      let e' : ◌≡◌ {A = ℤ × Bool} (pos (suc b), true) (s, true) =
        rw (to_int16_small (suc b) (omega arith), t) at e in
      (b, ground arith, omega arith, t, u)
]

scan_seats_none :
    (rounds b total : ℕ) (taken : List ℤ) (s : ℤ)
    → b + rounds ≡ total
    → total ≤ 32767
    → Upto (IsTaken taken) b
    → scan_seats rounds (suc b) taken ≡ (s, false)
    → Upto (IsTaken taken) total
unfolding scan_seats
scan_seats_none zero b total taken s q l u e = subst (Upto (IsTaken taken)) (omega arith) u
scan_seats_none (suc rounds) b total taken s q l u e =
    elim (Bool-cases (occupied taken (pos (suc b)))) [
      | inl t ↦
          let e' : scan_seats rounds (suc (suc b)) taken ≡ (s, false) =
            rw (to_int16_small (suc b) (omega arith), t) at e in
          scan_seats_none rounds (suc b) total taken s (omega arith) l (t, u) e'
      | inr t ↦
          let e' : ◌≡◌ {A = ℤ × Bool} (pos (suc b), true) (s, false) =
            rw (to_int16_small (suc b) (omega arith), t) at e in
          absurd (ground arith)
    ]

-- A seat that is found lies within the capacity, is free, and every lower seat is taken.
pub lowest_free_seat_some :
    (capacity : ℤ) (taken : List ℤ) (s : ℤ)
    → capacity ≤ℤ pos 32767
    → lowest_free_seat capacity taken ≡ (s, true)
    → (n : ℕ) × (s ≡ pos (suc n))
      × (s ≤ℤ capacity)
      × (occupied taken s ≡ false)
      × Upto (IsTaken taken) n
unfolding lowest_free_seat
lowest_free_seat_some (negsuc c) taken s l e = absurd (ground arith)
lowest_free_seat_some (pos zero) taken s l e = absurd (ground arith)
lowest_free_seat_some (pos (suc c)) taken s l e =
    let e' : scan_seats (suc c) 1 taken ≡ (s, true) = ground arith in
    let (n, same, below, gap, rest) = scan_seats_some (suc c) 0 taken s (omega arith) tt e' in
    (n, same, rw same (omega arith), rw same gap, rest)

-- No seat is found only where every seat of the class is taken.
pub lowest_free_seat_none :
    (capacity : ℤ) (taken : List ℤ) (s : ℤ)
    → capacity ≤ℤ pos 32767
    → lowest_free_seat capacity taken ≡ (s, false)
    → Upto (IsTaken taken) (pos_part capacity)
unfolding lowest_free_seat
lowest_free_seat_none (negsuc c) taken s l e = tt
lowest_free_seat_none (pos zero) taken s l e = tt
lowest_free_seat_none (pos (suc c)) taken s l e =
    let e' : scan_seats (suc c) 1 taken ≡ (s, false) = ground arith in
    scan_seats_none (suc c) 0 (suc c) taken s (omega arith) (omega arith) tt e'
