-- ===== src/Booking/Memory/Confirm.antt =====
-- What confirm decides: who gets the seat, and who is owed a refund.
use ottodot_trial_booking_se.Booking.Memory.Safety.{no_seat, own_key}
use ottodot_trial_booking_se.Identifier.{minted}
use ottodot_trial_booking_se.Booking.Status.{confirmed, refund_required, status_eq, pending_payment}
use ottodot_trial_booking_se.Booking.Memory.Writes.{
  before_commit_point, confirm, lock_wait_point, lost_of, move, record_event, settle_seat, won_of,
}
use ottodot_trial_booking_se.Booking.Memory.Cases.{Outcome}
use ottodot_trial_booking_se.Booking.Errors.{err_seat_lost, triggered}
use ottodot_trial_booking_se.Prelude.{
  Bool-cases, eq_ℤ_refl, some-injective, subst, text_eq_refl, All, List, [], eq_ℤ, inl, inr, map,
  select, text_cases, ◌∷◌, lookup-insert_ne, ◌≢◌, lookup-insert_self, ◌≤◌, Time, after, insert,
  none, suc, tally, tally-insert_old, Bool, Text, arith, false, le-length_of_Upto, lookup,
  lookup-All, pos, pos_part, refl, some, true, ℤ, ◌<◌, ◌≡◌, ◌≤ℤ◌,
}
use ottodot_trial_booking_se.Booking.Seat.Laws.{lowest_free_seat_some, lowest_free_seat_none}
use ottodot_trial_booking_se.Booking.Seat.{lowest_free_seat}
use ottodot_trial_booking_se.Booking.Model.{Booking, ConfirmRequest, has_seat, Class}
use ottodot_trial_booking_se.Booking.Memory.Reads.{sits_in, Repository, seats_taken}
use ottodot_trial_booking_se.Booking.Memory.Invariant.{IsSound}
use ottodot_trial_booking_se.Booking.Memory.Capacity.{
  seats-away, free-room, length-seats_taken, seated,
}

module _ (repository : Repository) (class_id : Text) (class : Class) (v : IsSound repository)
    (known : lookup class_id repository.classes ≡ some class) where
  class_small : class.capacity ≤ℤ pos 32767
  class_small =
      lookup-All (λ row. row.1.capacity ≤ℤ pos 32767) class_id class repository.classes v.capacities
        known

  -- With a seat left the picker finds one.
  pub room-found :
      seated repository class_id < pos_part class.capacity
      → (seat : ℤ) × (lowest_free_seat class.capacity (seats_taken repository class_id)
          ≡ (seat, true))
  room-found room = decided (lowest_free_seat class.capacity (seats_taken repository class_id)) refl
    where
      decided :
          (pick : ℤ × Bool)
          → lowest_free_seat class.capacity (seats_taken repository class_id) ≡ pick
          → (seat : ℤ) × (lowest_free_seat class.capacity (seats_taken repository class_id)
              ≡ (seat, true))
      decided (seat, true) e = (seat, e)
      decided (seat, false) e = absurd (
          omega (
            arith,
            room,
            length-seats_taken repository class_id,
            le-length_of_Upto (pos_part class.capacity) (seats_taken repository class_id) (
                lowest_free_seat_none class.capacity (seats_taken repository class_id) seat
                  class_small e),
          ))

  -- Without one it finds none: a free seat within the capacity would be one row more than fits.
  pub full-lost :
      pos_part class.capacity ≤ seated repository class_id
      → (seat : ℤ) × (lowest_free_seat class.capacity (seats_taken repository class_id)
          ≡ (seat, false))
  full-lost full = decided (lowest_free_seat class.capacity (seats_taken repository class_id)) refl
    where
      decided :
          (pick : ℤ × Bool)
          → lowest_free_seat class.capacity (seats_taken repository class_id) ≡ pick
          → (seat : ℤ) × (lowest_free_seat class.capacity (seats_taken repository class_id)
              ≡ (seat, false))
      decided (seat, false) e = (seat, e)
      decided (seat, true) e =
          let (n, same, within, gap, _) =
            lowest_free_seat_some class.capacity (seats_taken repository class_id) seat class_small
              e in
          absurd (
            omega (
              arith,
              full,
              free-room repository class_id class v known seat (rw same (omega arith)) within gap,
            ))

-- A row that gets a seat raises the count of its class by one.
seated-won :
    (repository : Repository) (stored : Booking) (seat : ℤ) (now : Time)
    → lookup stored.id repository.bookings ≡ some stored
    → stored.seat_no ≡ pos 0
    → pos 1 ≤ℤ seat
    → tally
        (sits_in stored.class_id)
        (insert stored.id (won_of stored seat now) repository.bookings)
      ≡ suc (seated repository stored.class_id)
unfolding seated sits_in has_seat won_of
seated-won repository stored seat now found bare s = ground (
  arith,
  tally-insert_old (sits_in stored.class_id) stored.id (won_of stored seat now) stored
      repository.bookings found,
)

-- One that is lost leaves the count as it was.
seated-lost :
    (repository : Repository) (stored : Booking) (now : Time)
    → lookup stored.id repository.bookings ≡ some stored
    → tally (sits_in stored.class_id) (insert stored.id (lost_of stored now) repository.bookings)
      ≡ seated repository stored.class_id
unfolding seated sits_in has_seat lost_of
seated-lost repository stored now found = ground (
  arith,
  tally-insert_old (sits_in stored.class_id) stored.id (lost_of stored now) stored
      repository.bookings found,
)

-- The row that a confirm answers with, in a repository that holds it: a confirmed booking with the
-- seat, or one that is owed a refund, with nothing else changed but the times.
abbrev pub Wins : Outcome → Booking → Time → ℤ → Type 0
Wins (after, row, err) stored now seat =
    (err ≡ none)
    × (row ≡ record stored {
      status = confirmed;
      seat_no = seat;
      confirmed_at = now;
      hold_expires_at = 0;
      updated_at = now;
    })
    × (lookup stored.id after.bookings ≡ some row)

abbrev pub Loses : Outcome → Booking → Time → Type 0
Loses (after, row, err) stored now =
    (err ≡ some err_seat_lost)
    × (row ≡ record stored { status = refund_required; hold_expires_at = 0; updated_at = now })
    × (lookup stored.id after.bookings ≡ some row)

-- A seat of the class that no row of it has.
abbrev pub IsVacant : Repository → Text → Class → ℤ → Type 0
IsVacant repository class_id class seat =
    (pos 1 ≤ℤ seat)
    × (seat ≤ℤ class.capacity)
    × ((id : Text) (row : Booking)
        → lookup id repository.bookings ≡ some row
        → row.class_id ≡ class_id
        → row.seat_no ≢ seat)

abbrev IsAway : ℤ → Text → List (Text × Booking) → Type 0
IsAway seat class_id rows =
    All (λ s. eq_ℤ seat s ≡ false)
      (map (λ (r : Text × Booking). r.1.seat_no) (select (sits_in class_id) rows))

rest-IsAway :
    (seat : ℤ) (class_id : Text) (r : Text × Booking) (rows : List (Text × Booking))
    → IsAway seat class_id (r ∷ rows)
    → IsAway seat class_id rows
rest-IsAway seat class_id r rows h = elim (Bool-cases (sits_in class_id r)) [
  | inl t ↦ let h' : IsAway seat class_id rows = (rw t at h).1 in h'
  | inr t ↦ rw t at h
]

head-IsAway :
    (seat : ℤ) (class_id key : Text) (row : Booking) (rows : List (Text × Booking))
    → pos 1 ≤ℤ seat
    → IsAway seat class_id ((key, row) ∷ rows)
    → row.class_id ≡ class_id
    → row.seat_no ≢ seat
unfolding sits_in has_seat
head-IsAway seat class_id key row rows low h same clash =
    let sits : sits_in class_id (key, row) ≡ true = ground (arith, text_eq_refl class_id) in
    let apart : eq_ℤ seat row.seat_no ≡ false = (rw sits at h).0 in
    let equal : eq_ℤ seat row.seat_no ≡ true = rw clash (eq_ℤ_refl seat) in absurd cc

row-vacant :
    (rows : List (Text × Booking)) (class_id : Text) (seat : ℤ) (id : Text) (row : Booking)
    → pos 1 ≤ℤ seat
    → IsAway seat class_id rows
    → lookup id rows ≡ some row
    → row.class_id ≡ class_id
    → row.seat_no ≢ seat
unfolding lookup
row-vacant [] class_id seat id row low h e same = absurd cc
row-vacant ((key, b) ∷ rows) class_id seat id row low h e same = elim (text_cases key id) [
  | inl (t, named) ↦
      let here : some b ≡ some row = rw t at e in
      subst (λ (r : Booking). r.class_id ≡ class_id → r.seat_no ≢ seat) (some-injective b row here)
        (head-IsAway seat class_id key b rows low h) same
  | inr (t, away) ↦
      let there : lookup id rows ≡ some row = rw t at e in
      row-vacant rows class_id seat id row low (rest-IsAway seat class_id (key, b) rows h) there
        same
]

module _ (repository : Repository) (event_id : Text) (request : ConfirmRequest) (stored : Booking)
    (class : Class) (v : IsSound repository)
    (found : lookup request.booking_id repository.bookings ≡ some stored)
    (pending : stored.status ≡ pending_payment)
    (known : lookup stored.class_id repository.classes ≡ some class)
    (unlocked : triggered repository.fault lock_wait_point ≡ false)
    (unbroken : triggered repository.fault before_commit_point ≡ false) where
  -- The guards pass, and the picker decides.
  confirm-settles :
      confirm repository (minted event_id) request
      ≡ settle_seat repository
          (minted event_id)
          stored
          (lowest_free_seat class.capacity (seats_taken repository stored.class_id))
          request.now
  unfolding confirm
  confirm-settles =
      let t : status_eq stored.status pending_payment ≡ true = rw pending in
      rw (unlocked, found, t) (rw known)

  own : lookup stored.id repository.bookings ≡ some stored
  own = own_key repository v request.booking_id stored found

  bare : stored.seat_no ≡ pos 0
  bare = no_seat repository v request.booking_id stored found (rw pending)

  won_after :
      (seat : ℤ)
      → pos 1 ≤ℤ seat
      → Wins
          (settle_seat repository (minted event_id) stored (seat, true) request.now)
          stored
          request.now
          seat
        × (seated
              (settle_seat repository (minted event_id) stored (seat, true) request.now).0
              stored.class_id
            ≡ suc (seated repository stored.class_id))
  unfolding settle_seat move record_event won_of
  won_after seat s = rw unbroken (
    (
      refl,
      refl,
      unfold won_of in
          lookup-insert_self stored.id (won_of stored seat request.now) repository.bookings,
    ),
    unfold won_of seated in seated-won repository stored seat request.now own bare s,
  )

  -- In a sound repository, for a stored booking in pending_payment of a known class and with no fault
  -- armed: while a seat is left, confirm leaves the booking confirmed with a seat within the capacity
  -- that no row of the class has, with nothing else changed but the times, and the class then has one
  -- seated row more.
  pub confirm-Wins :
      seated repository stored.class_id < pos_part class.capacity
      → (seat : ℤ) × Wins (confirm repository (minted event_id) request) stored request.now seat
        × IsVacant repository stored.class_id class seat
        × (seated (confirm repository (minted event_id) request).0 stored.class_id
            ≡ suc (seated repository stored.class_id))
  confirm-Wins room =
      let (seat, e) = room-found repository stored.class_id class v known room in
      let (n, same, within, gap, _) =
        lowest_free_seat_some class.capacity (seats_taken repository stored.class_id) seat
          (class_small repository stored.class_id class v known) e in
      let low : pos 1 ≤ℤ seat = rw same (omega arith) in
      let vacant : IsVacant repository stored.class_id class seat = (
        low,
        within,
        λ id row there here.
            row-vacant repository.bookings stored.class_id seat id row low
              (seats-away repository stored.class_id seat gap) there here,
      ) in
      let r = won_after seat low in
      (seat, rw (confirm-settles, e) (r.0), vacant, rw (confirm-settles, e) (r.1))

  -- What the winning confirm leaves alone: the other rows and the fault source.
  pub confirm-Wins_frame :
      seated repository stored.class_id < pos_part class.capacity
      → (key : Text) → stored.id ≢ key
      → (lookup key (confirm repository (minted event_id) request).0.bookings
          ≡ lookup key repository.bookings)
        × ((confirm repository (minted event_id) request).0.fault ≡ repository.fault)
  unfolding settle_seat move record_event
  confirm-Wins_frame room key n =
      let (seat, e) = room-found repository stored.class_id class v known room in
      rw (confirm-settles, e)
        (rw unbroken (
          unfold won_of in
              lookup-insert_ne stored.id key (won_of stored seat request.now) repository.bookings n,
          refl,
        ))

  lost_after :
      (seat : ℤ)
      → Loses
          (settle_seat repository (minted event_id) stored (seat, false) request.now)
          stored
          request.now
        × (seated
              (settle_seat repository (minted event_id) stored (seat, false) request.now).0
              stored.class_id
            ≡ seated repository stored.class_id)
  unfolding settle_seat move record_event lost_of
  lost_after seat = (
    (
      refl,
      refl,
      unfold lost_of in
          lookup-insert_self stored.id (lost_of stored request.now) repository.bookings,
    ),
    unfold lost_of seated in seated-lost repository stored request.now own,
  )

  -- In a sound repository, for a stored booking in pending_payment of a known class and with no fault
  -- armed: with every seat sold, confirm answers the lost seat and leaves the booking in
  -- refund_required, with nothing else changed but the times, and the class has as many
  -- seated rows as before.
  pub confirm-Loses :
      pos_part class.capacity ≤ seated repository stored.class_id
      → Loses (confirm repository (minted event_id) request) stored request.now
        × (seated (confirm repository (minted event_id) request).0 stored.class_id
            ≡ seated repository stored.class_id)
  confirm-Loses full =
      let (seat, e) = full-lost repository stored.class_id class v known full in
      rw (confirm-settles, e) (lost_after seat)
