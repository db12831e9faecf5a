-- ===== src/Booking/Seat.antt =====
-- backend/internal/booking/seat.go: the seat picker.
pub mod Laws
use ottodot_trial_booking_se.Prelude.{
  [], ◌∷◌, ℕ, zero, suc, Bool, true, false, List, ℤ, pos, pos_part, ltb_ℤ, eq_ℤ, to_int16, any,
  select, not, Option, none, some, if◌then◌else◌,
}

-- Membership in the set `occupied`, which holds exactly the seats of the list.
abbrev pub occupied : List ℤ → ℤ → Bool
occupied taken seat = any (eq_ℤ seat) taken

-- The loop over `seat`, with the rounds left as the structural argument.
unfoldable pub scan_seats : ℕ → ℕ → List ℤ → ℤ × Bool
unfolding to_int16
scan_seats zero seat taken = (pos 0, false)
scan_seats (suc rounds) seat taken =
    let rest = scan_seats rounds (suc seat) taken in
    if occupied taken (to_int16 seat) then rest else (to_int16 seat, true)

-- `seat <= int(capacity)` from 1 on is as many rounds as the capacity.
unfoldable pub lowest_free_seat : ℤ → List ℤ → ℤ × Bool
unfolding scan_seats
lowest_free_seat capacity taken =
    if ltb_ℤ capacity (pos 1) then (pos 0, false) else scan_seats (pos_part capacity) 1 taken

-- repository_postgres.go, Confirm: the query that chooses the seat, `generate_series(1, capacity)`
-- without the seats that are taken, in order, limit 1.
unfoldable pub generate_series : ℕ → ℕ → List ℤ
generate_series zero from = []
generate_series (suc rounds) from = pos from ∷ generate_series rounds (suc from)

abbrev first : List ℤ → Option ℤ
first [] = none
first (seat ∷ seats) = some seat

unfoldable pub free_seat_query : ℤ → List ℤ → Option ℤ
free_seat_query capacity taken =
    first (select (λ seat. not (occupied taken seat)) (generate_series (pos_part capacity) 1))
