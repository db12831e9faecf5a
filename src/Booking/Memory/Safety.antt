-- ===== src/Booking/Memory/Safety.antt =====
-- The invariant through each method of repository_memory.go.
use ottodot_trial_booking_se.Booking.Memory.Cases.{on_found, on_guard}
use ottodot_trial_booking_se.Booking.Seat.Laws.{lowest_free_seat_some}
use ottodot_trial_booking_se.Prelude.{
  leb_ℤ, All-map, any-false, not, All, All-zip, arith, eq_ℤ, lookup-All, lookup-Pairwise, pos, refl,
  subst, sym, ◌&&◌, ◌≢◌, ◌≤ℤ◌, Bool, Bool-cases, Text, Time, false, inl, inr, lookup, none, some,
  true, ℤ, ◌≡◌,
}
use ottodot_trial_booking_se.Identifier.{Minted}
use ottodot_trial_booking_se.Booking.Status.{
  Status, can_transition, cancelled, no_status, confirmed, is_live, status_eq, pending_payment,
}
use ottodot_trial_booking_se.Booking.Seat.{lowest_free_seat}
use ottodot_trial_booking_se.Booking.Model.{
  max_holders, CancelRequest, ConfirmRequest, ExpireRequest, FailRequest, HoldRequest, has_seat,
  hold_is_live, parent, payment, Booking, Class, system,
}
use ottodot_trial_booking_se.Booking.Memory.Writes.{
  cancel, confirm, declined_of, expire, fail, grant, granted_of, hold, lapsed_of, lock_wait_point,
  withdrawn_of, before_commit_point, lost_of, settle_seat, won_of,
}
use ottodot_trial_booking_se.Booking.Memory.Reads.{
  holders, live_holds_for_parent, has_live_booking, is_live_for, sits_in, Repository, seats_taken,
}
use ottodot_trial_booking_se.Booking.Memory.Invariant.{
  both_live, share_seat, IsApart, IsApart-symm, free_of_rows, stored_fits, unseated, won-IsApart,
  IsSound, move-IsSound, retire-IsSound,
}
use ottodot_trial_booking_se.Booking.Errors.{triggered}

-- What the methods know of the row that they looked up.
module _ (repository : Repository) (v : IsSound repository) (booking_id : Text) (stored : Booking)
    (found : lookup booking_id repository.bookings ≡ some stored) where
  pub own_key : lookup stored.id repository.bookings ≡ some stored
  own_key =
      subst (λ k. lookup k repository.bookings ≡ some stored)
        (sym (stored_fits repository booking_id stored v found).0) found

  pub no_seat : status_eq stored.status confirmed ≡ false → stored.seat_no ≡ pos 0
  no_seat e =
      unseated stored.status (lookup stored.class_id repository.classes) stored.seat_no
        (stored_fits repository booking_id stored v found).1 e

  pub others-IsApart :
      All (λ r. r.0 ≢ stored.id → IsApart (stored.id, stored) r) repository.bookings
  others-IsApart =
      lookup-Pairwise IsApart stored.id stored repository.bookings IsApart-symm v.apart own_key

  pub capacity_small :
      (class : Class)
      → lookup stored.class_id repository.classes ≡ some class
      → class.capacity ≤ℤ pos 32767
  capacity_small class known =
      lookup-All (λ row. row.1.capacity ≤ℤ pos 32767) stored.class_id class repository.classes
        v.capacities known

module _ (repository : Repository) (mint : Minted) (v : IsSound repository) where
  -- The decision of confirm, with the seat that the picker answered.
  settle_seat-IsSound :
      (booking_id : Text) (stored : Booking) (class : Class) (pick : ℤ × Bool) (now : Time)
      → lookup booking_id repository.bookings ≡ some stored
      → stored.status ≡ pending_payment
      → lookup stored.class_id repository.classes ≡ some class
      → lowest_free_seat class.capacity (seats_taken repository stored.class_id) ≡ pick
      → IsSound (settle_seat repository mint stored pick now).0
  unfolding settle_seat
  settle_seat-IsSound booking_id stored class (seat, false) now found pending known e =
      let bare = no_seat repository v booking_id stored found (rw pending) in
      retire-IsSound repository mint (lost_of stored now) stored.status system _ now _ v
        (unfold lost_of in (refl, bare)) (unfold lost_of in bare) (unfold lost_of is_live in refl)
  settle_seat-IsSound booking_id stored class (seat, true) now found pending known e =
      let (n, same, within, gap, _) =
        lowest_free_seat_some class.capacity (seats_taken repository stored.class_id) seat
          (capacity_small repository v booking_id stored found class known) e in
      elim (Bool-cases (triggered repository.fault before_commit_point)) [
        | inl t ↦ rw t v
        | inr t ↦ rw t (
            move-IsSound repository mint (won_of stored seat now) stored.status system _ now none v
              (unfold won_of in (refl, rw known (rw same (omega arith), within)))
              (unfold won_of in
                All-zip (λ r. (sits_in stored.class_id r && eq_ℤ seat r.1.seat_no) ≡ false)
                  (λ r. r.0 ≢ stored.id → IsApart (stored.id, stored) r)
                  (λ r. r.0 ≢ stored.id → IsApart (stored.id, won_of stored seat now) r)
                  repository.bookings
                  (λ r gone away n. won-IsApart stored seat now r pending gone (away n))
                  (free_of_rows repository stored.class_id seat gap)
                  (others-IsApart repository v booking_id stored found)))
      ]

is_pending : (s : Status) → not (status_eq s pending_payment) ≡ false → s ≡ pending_payment
is_pending s h = ground arith

module _ (repository : Repository) (mint : Minted) (v : IsSound repository) where
  pub confirm-IsSound : (request : ConfirmRequest) → IsSound (confirm repository mint request).0
  unfolding confirm
  confirm-IsSound request =
      on_guard (λ o. IsSound o.0) (triggered repository.fault lock_wait_point) _ _ v
        λ _.
          on_found (λ o. IsSound o.0) (lookup request.booking_id repository.bookings) _ _ v
            λ stored found.
              on_guard (λ o. IsSound o.0) (not (status_eq stored.status pending_payment)) _ _ v
                λ pending.
                  on_found (λ o. IsSound o.0) (lookup stored.class_id repository.classes) _ _ v
                    λ class known.
                      settle_seat-IsSound repository mint v request.booking_id stored class _
                        request.now found (is_pending stored.status pending) known refl

  pub cancel-IsSound : (request : CancelRequest) → IsSound (cancel repository mint request).0
  unfolding cancel
  cancel-IsSound request =
      on_found (λ o. IsSound o.0) (lookup request.booking_id repository.bookings) _ _ v
        λ stored found.
          on_guard (λ o. IsSound o.0) (not (can_transition stored.status cancelled)) _ _ v
            λ _.
              retire-IsSound repository mint (withdrawn_of stored request.now) stored.status
                request.actor request.reason request.now none v
                (unfold withdrawn_of in (refl, refl)) (unfold withdrawn_of in refl)
                (unfold withdrawn_of is_live in refl)

  pub fail-IsSound : (request : FailRequest) → IsSound (fail repository mint request).0
  unfolding fail
  fail-IsSound request =
      on_found (λ o. IsSound o.0) (lookup request.booking_id repository.bookings) _ _ v
        λ stored found.
          on_guard (λ o. IsSound o.0) (not (status_eq stored.status pending_payment)) _ _ v
            λ pending.
              let bare =
                no_seat repository v request.booking_id stored found
                  (rw (is_pending stored.status pending)) in
              retire-IsSound repository mint (declined_of stored request.now) stored.status payment
                request.reason request.now none v (unfold declined_of in (refl, bare))
                (unfold declined_of in bare) (unfold declined_of is_live in refl)

  pub expire-IsSound : (request : ExpireRequest) → IsSound (expire repository mint request).0
  unfolding expire
  expire-IsSound request =
      on_found (λ o. IsSound o.0) (lookup request.booking_id repository.bookings) _ _ v
        λ stored found.
          on_guard (λ o. IsSound o.0) (not (status_eq stored.status pending_payment)) _ _ v
            λ pending.
              on_guard (λ o. IsSound o.0) (hold_is_live stored.hold_expires_at request.now) _ _ v
                λ _.
                  let bare =
                    no_seat repository v request.booking_id stored found
                      (rw (is_pending stored.status pending)) in
                  retire-IsSound repository mint (lapsed_of stored request.now) stored.status system
                    _ request.now none v (unfold lapsed_of in (refl, bare))
                    (unfold lapsed_of in bare) (unfold lapsed_of is_live in refl)

  -- A new hold stands apart: it has no seat, and no live row is for the same child and class.
  granted-IsApart :
      (request : HoldRequest) (r : Text × Booking)
      → is_live_for request.student_id request.class_id r ≡ false
      → r.0 ≢ request.booking_id
      → IsApart (request.booking_id, granted_of request) r
  unfolding granted_of is_live_for share_seat both_live has_seat
  granted-IsApart request (k, b) dead n = (λ e. n (sym e), ground arith, ground arith)

  pub hold-IsSound : (request : HoldRequest) → IsSound (hold repository mint request).0
  unfolding hold grant has_live_booking
  hold-IsSound request =
      on_found (λ o. IsSound o.0) (lookup request.class_id repository.classes) _ _ v
        λ class _.
          on_found (λ o. IsSound o.0) (lookup request.student_id repository.parents) _ _ v
            λ parent_id _.
              on_guard (λ o. IsSound o.0)
                (has_live_booking repository request.student_id request.class_id) _ _ v
                λ single.
                  on_guard (λ o. IsSound o.0)
                    (leb_ℤ request.max_holds_per_parent
                      (pos (live_holds_for_parent repository parent_id request.now)))
                    _ _ v
                    λ _.
                      on_guard (λ o. IsSound o.0)
                        (leb_ℤ (max_holders class)
                          (pos (holders repository request.class_id request.now)))
                        _ _ v
                        λ _.
                          move-IsSound repository mint (granted_of request) no_status parent _
                            request.now none v (unfold granted_of in (refl, refl))
                            (unfold granted_of in
                              All-map
                                (λ r. is_live_for request.student_id request.class_id r ≡ false)
                                (λ r.
                                  r.0 ≢ request.booking_id
                                  → IsApart (request.booking_id, granted_of request) r)
                                repository.bookings (granted-IsApart request)
                                (any-false (is_live_for request.student_id request.class_id)
                                  repository.bookings single))
