-- ===== src/Booking/Memory/Trail/Methods.antt =====
-- The audit trail through each method of repository_memory.go.
use ottodot_trial_booking_se.Prelude.{
  Bool, List, Text, Time, [], false, leb_ℤ, lookup, lookup_or, none, not, pos, refl, some, true, ℤ,
  ◌∷◌, ◌≡◌,
}
use ottodot_trial_booking_se.Identifier.{Minted}
use ottodot_trial_booking_se.Booking.Status.{
  can_transition, cancelled, confirmed, expired, no_status, payment_failed, pending_payment,
  refund_required, status_eq,
}
use ottodot_trial_booking_se.Booking.Seat.{lowest_free_seat}
use ottodot_trial_booking_se.Booking.Model.{
  Booking, CancelRequest, ConfirmRequest, ExpireRequest, FailRequest, HoldRequest, hold_is_live,
  max_holders, parent, payment, system,
}
use ottodot_trial_booking_se.Booking.Memory.Writes.{
  before_commit_point, cancel, confirm, declined_of, expire, fail, grant, granted_of, hold,
  lapsed_of, lock_wait_point, lost_of, settle_seat, withdrawn_of, won_of,
}
use ottodot_trial_booking_se.Booking.Memory.Trail.{
  IsTrailed, Leads, created_legal, legal_from_pending, legal_of, move-IsTrailed,
}
use ottodot_trial_booking_se.Booking.Memory.Schedule.{
  Call, adds_student, cancels, confirms, expires, fails, holds, injects, perform, run, step,
  step-IsSound,
}
use ottodot_trial_booking_se.Booking.Memory.Safety.{own_key}
use ottodot_trial_booking_se.Booking.Memory.Rollback.{IsMinted, MintsOf}
use ottodot_trial_booking_se.Booking.Memory.Reads.{
  Repository, add_student, has_live_booking, holders, inject_faults, live_holds_for_parent,
  seats_taken,
}
use ottodot_trial_booking_se.Booking.Memory.Invariant.{IsSound}
use ottodot_trial_booking_se.Booking.Memory.Cases.{on_found, on_guard}
use ottodot_trial_booking_se.Booking.Errors.{triggered}

-- The stored trail of a row that a method looked up, under the row's own identifier.
module _ (repository : Repository) (mint : Minted) (m : IsMinted mint) (v : IsSound repository)
    (h : IsTrailed repository) where
  own_trail :
      (booking_id : Text) (stored : Booking)
      → lookup booking_id repository.bookings ≡ some stored
      → Leads stored.id no_status (lookup_or [] stored.id repository.events) stored.status
  own_trail booking_id stored found =
      h.trails stored.id stored (own_key repository v booking_id stored found)

  pub cancel-IsTrailed : (request : CancelRequest) → IsTrailed (cancel repository mint request).0
  unfolding cancel
  cancel-IsTrailed request =
      on_found (λ o. IsTrailed o.0) (lookup request.booking_id repository.bookings) _ _ h
        λ stored found.
          on_guard (λ o. IsTrailed o.0) (not (can_transition stored.status cancelled)) _ _ h
            λ ok.
              move-IsTrailed repository mint (withdrawn_of stored request.now) stored.status
                request.actor request.reason request.now none m h
                (unfold withdrawn_of in own_trail request.booking_id stored found)
                (unfold withdrawn_of in legal_of stored.status cancelled ok)

  pub fail-IsTrailed : (request : FailRequest) → IsTrailed (fail repository mint request).0
  unfolding fail can_transition
  fail-IsTrailed request =
      on_found (λ o. IsTrailed o.0) (lookup request.booking_id repository.bookings) _ _ h
        λ stored found.
          on_guard (λ o. IsTrailed o.0) (not (status_eq stored.status pending_payment)) _ _ h
            λ ok.
              move-IsTrailed repository mint (declined_of stored request.now) stored.status payment
                request.reason request.now none m h
                (unfold declined_of in own_trail request.booking_id stored found)
                (unfold declined_of in legal_from_pending stored.status payment_failed ok refl)

  pub expire-IsTrailed : (request : ExpireRequest) → IsTrailed (expire repository mint request).0
  unfolding expire can_transition
  expire-IsTrailed request =
      on_found (λ o. IsTrailed o.0) (lookup request.booking_id repository.bookings) _ _ h
        λ stored found.
          on_guard (λ o. IsTrailed o.0) (not (status_eq stored.status pending_payment)) _ _ h
            λ ok.
              on_guard (λ o. IsTrailed o.0) (hold_is_live stored.hold_expires_at request.now) _ _ h
                λ _.
                  move-IsTrailed repository mint (lapsed_of stored request.now) stored.status system
                    _ request.now none m h
                    (unfold lapsed_of in own_trail request.booking_id stored found)
                    (unfold lapsed_of in legal_from_pending stored.status expired ok refl)

  settle_seat-IsTrailed :
      (booking_id : Text) (stored : Booking) (pick : ℤ × Bool) (now : Time)
      → lookup booking_id repository.bookings ≡ some stored
      → not (status_eq stored.status pending_payment) ≡ false
      → IsTrailed (settle_seat repository mint stored pick now).0
  unfolding settle_seat can_transition
  settle_seat-IsTrailed booking_id stored (seat, false) now found ok =
      move-IsTrailed repository mint (lost_of stored now) stored.status system _ now _ m h
        (unfold lost_of in own_trail booking_id stored found)
        (unfold lost_of in legal_from_pending stored.status refund_required ok refl)
  settle_seat-IsTrailed booking_id stored (seat, true) now found ok =
      on_guard (λ o. IsTrailed o.0) (triggered repository.fault before_commit_point) _ _ h
        λ _.
          move-IsTrailed repository mint (won_of stored seat now) stored.status system _ now none m
            h (unfold won_of in own_trail booking_id stored found)
            (unfold won_of in legal_from_pending stored.status confirmed ok refl)

  pub confirm-IsTrailed : (request : ConfirmRequest) → IsTrailed (confirm repository mint request).0
  unfolding confirm
  confirm-IsTrailed request =
      on_guard (λ o. IsTrailed o.0) (triggered repository.fault lock_wait_point) _ _ h
        λ _.
          on_found (λ o. IsTrailed o.0) (lookup request.booking_id repository.bookings) _ _ h
            λ stored found.
              on_guard (λ o. IsTrailed o.0) (not (status_eq stored.status pending_payment)) _ _ h
                λ ok.
                  on_found (λ o. IsTrailed o.0) (lookup stored.class_id repository.classes) _ _ h
                    λ class _.
                      settle_seat-IsTrailed request.booking_id stored
                        (lowest_free_seat class.capacity (seats_taken repository stored.class_id))
                        request.now found ok

  grant-IsTrailed :
      (request : HoldRequest)
      → lookup request.booking_id repository.bookings ≡ none
      → IsTrailed (grant repository mint request).0
  unfolding grant
  grant-IsTrailed request unused =
      move-IsTrailed repository mint (granted_of request) no_status parent _ request.now none m h
        (unfold granted_of in rw (h.untouched request.booking_id unused) refl)
        (unfold granted_of in created_legal)

  pub hold-IsTrailed :
      (request : HoldRequest)
      → lookup request.booking_id repository.bookings ≡ none
      → IsTrailed (hold repository mint request).0
  unfolding hold
  hold-IsTrailed request unused =
      on_found (λ o. IsTrailed o.0) (lookup request.class_id repository.classes) _ _ h
        λ class _.
          on_found (λ o. IsTrailed o.0) (lookup request.student_id repository.parents) _ _ h
            λ parent_id _.
              on_guard (λ o. IsTrailed o.0)
                (has_live_booking repository request.student_id request.class_id) _ _ h
                λ _.
                  on_guard (λ o. IsTrailed o.0)
                    (leb_ℤ request.max_holds_per_parent
                      (pos (live_holds_for_parent repository parent_id request.now)))
                    _ _ h
                    λ _.
                      on_guard (λ o. IsTrailed o.0)
                        (leb_ℤ (max_holders class)
                          (pos (holders repository request.class_id request.now)))
                        _ _ h λ _. grant-IsTrailed request unused

-- The identifiers of a schedule are minted, and a hold's identifier is new when the hold is asked.
abbrev pub IsClean : Repository → Call → Type 0
IsClean repository (holds mint request) =
    IsMinted mint × (lookup request.booking_id repository.bookings ≡ none)
IsClean repository call = MintsOf call

abbrev pub AllClean : Repository → List Call → Type 0
AllClean repository [] = Unit {0}
AllClean repository (call ∷ calls) = IsClean repository call × AllClean (step repository call) calls

step-IsTrailed :
    (repository : Repository) (call : Call)
    → IsClean repository call
    → IsSound repository
    → IsTrailed repository
    → IsTrailed (step repository call)
unfolding perform inject_faults add_student
step-IsTrailed repository (holds mint request) c v h =
    hold-IsTrailed repository mint c.0 v h request c.1
step-IsTrailed repository (confirms mint request) c v h =
    confirm-IsTrailed repository mint c v h request
step-IsTrailed repository (cancels mint request) c v h =
    cancel-IsTrailed repository mint c v h request
step-IsTrailed repository (fails mint request) c v h = fail-IsTrailed repository mint c v h request
step-IsTrailed repository (expires mint request) c v h =
    expire-IsTrailed repository mint c v h request
step-IsTrailed repository (injects fault) c v h = record {
  trails = h.trails;
  untouched = h.untouched;
}
step-IsTrailed repository (adds_student student_id parent_id) c v h = record {
  trails = h.trails;
  untouched = h.untouched;
}

-- From a sound repository with legal trails, after every schedule in which the identifiers are minted
-- and each hold's identifier is new, the trail of each booking is a legal path of the state machine
-- from its creation to the status of its row.
pub run-IsTrailed :
    (repository : Repository) (calls : List Call)
    → AllClean repository calls
    → IsSound repository
    → IsTrailed repository
    → IsTrailed (run repository calls)
unfolding run
run-IsTrailed repository [] c v h = h
run-IsTrailed repository (call ∷ calls) c v h =
    run-IsTrailed (step repository call) calls c.1 (step-IsSound repository call v)
      (step-IsTrailed repository call c.0 v h)
