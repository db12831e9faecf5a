-- ===== src/Booking/Memory/Cases.antt =====
-- How a predicate of the repository passes through the branches of a method.
use ottodot_trial_booking_se.Booking.Seat.{lowest_free_seat}
use ottodot_trial_booking_se.Prelude.{
  Bool, Option, Text, Time, false, if◌then◌else◌, leb_ℤ, lookup, none, not, pos, refl, some, true,
  ℤ, ◌≡◌,
}
use ottodot_trial_booking_se.Identifier.{Minted}
use ottodot_trial_booking_se.Booking.Status.{
  Status, can_transition, cancelled, pending_payment, status_eq,
}
use ottodot_trial_booking_se.Booking.Model.{
  Actor, Booking, CancelRequest, ConfirmRequest, ExpireRequest, FailRequest, HoldRequest,
  hold_is_live, max_holders,
}
use ottodot_trial_booking_se.Booking.Memory.Writes.{
  before_commit_point, cancel, confirm, expire, fail, grant, hold, lock_wait_point, move,
  settle_seat,
}
use ottodot_trial_booking_se.Booking.Memory.Reads.{
  seats_taken, Repository, has_live_booking, holders, live_holds_for_parent,
}
use ottodot_trial_booking_se.Booking.Errors.{err_seat_lost, Error, triggered}

-- What a writing method returns: the repository, and Go's pair.
abbrev pub Outcome : Type 0
Outcome = Repository × Booking × Option Error

-- A lookup: the method returns early, or goes on with what it found.
pub on_found :
    {A : Type 0} (P : Outcome → Type 0) (o : Option A) (missing : Outcome) (body : A → Outcome)
    → P missing
    → ((a : A) → o ≡ some a → P (body a))
    → P (elim o as (λ _. Repository × Booking × Option Error) [ none ↦ missing | some a ↦ body a ])
on_found P none missing body m h = m
on_found P (some a) missing body m h = h a refl

-- A guard: the method returns early where the test holds.
pub on_guard :
    (P : Outcome → Type 0) (test : Bool) (refusal next : Outcome)
    → P refusal
    → (test ≡ false → P next)
    → P (if test then refusal else next)
on_guard P true refusal next r h = r
on_guard P false refusal next r h = h refl

-- A predicate of the answers that return the repository as it was, and of the answers of the two
-- writes that end a method, is one of every answer.
module _ (P : Outcome → Type 0) (repository : Repository) (mint : Minted)
    (kept : (row : Booking) (err : Option Error) → P (repository, row, err))
    (writes : (row : Booking) (from : Status) (actor : Actor) (reason : Text) (now : Time)
      → P (move repository mint row from actor reason now none)) where
  pub on_cancel : (request : CancelRequest) → P (cancel repository mint request)
  unfolding cancel
  on_cancel request =
      on_found P (lookup request.booking_id repository.bookings) _ _ (kept _ _) λ stored _.
        on_guard P (not (can_transition stored.status cancelled)) _ _ (kept _ _)
          λ _. writes _ _ _ _ _

  pub on_fail : (request : FailRequest) → P (fail repository mint request)
  unfolding fail
  on_fail request =
      on_found P (lookup request.booking_id repository.bookings) _ _ (kept _ _) λ stored _.
        on_guard P (not (status_eq stored.status pending_payment)) _ _ (kept _ _)
          λ _. writes _ _ _ _ _

  pub on_expire : (request : ExpireRequest) → P (expire repository mint request)
  unfolding expire
  on_expire request =
      on_found P (lookup request.booking_id repository.bookings) _ _ (kept _ _) λ stored _.
        on_guard P (not (status_eq stored.status pending_payment)) _ _ (kept _ _) λ _.
          on_guard P (hold_is_live stored.hold_expires_at request.now) _ _ (kept _ _)
            λ _. writes _ _ _ _ _

  pub on_hold : (request : HoldRequest) → P (hold repository mint request)
  unfolding hold grant
  on_hold request =
      on_found P (lookup request.class_id repository.classes) _ _ (kept _ _) λ class _.
        on_found P (lookup request.student_id repository.parents) _ _ (kept _ _) λ parent_id _.
          on_guard P (has_live_booking repository request.student_id request.class_id) _ _
            (kept _ _)
            λ _.
              on_guard P
                (leb_ℤ request.max_holds_per_parent
                  (pos (live_holds_for_parent repository parent_id request.now)))
                _ _ (kept _ _)
                λ _.
                  on_guard P
                    (leb_ℤ (max_holders class)
                      (pos (holders repository request.class_id request.now)))
                    _ _ (kept _ _) λ _. writes _ _ _ _ _

  module _
      (loses : (row : Booking) (from : Status) (actor : Actor) (reason : Text) (now : Time)
        → P (move repository mint row from actor reason now (some err_seat_lost))) where
    on_settle_seat :
        (stored : Booking) (pick : ℤ × Bool) (now : Time)
        → P (settle_seat repository mint stored pick now)
    unfolding settle_seat
    on_settle_seat stored (seat, false) now = loses _ _ _ _ _
    on_settle_seat stored (seat, true) now =
        on_guard P (triggered repository.fault before_commit_point) _ _ (kept _ _)
          λ _. writes _ _ _ _ _

    pub on_confirm : (request : ConfirmRequest) → P (confirm repository mint request)
    unfolding confirm
    on_confirm request = on_guard P (triggered repository.fault lock_wait_point) _ _ (kept _ _) λ _.
        on_found P (lookup request.booking_id repository.bookings) _ _ (kept _ _) λ stored _.
          on_guard P (not (status_eq stored.status pending_payment)) _ _ (kept _ _) λ _.
            on_found P (lookup stored.class_id repository.classes) _ _ (kept _ _) λ class _.
              on_settle_seat stored
                (lowest_free_seat class.capacity (seats_taken repository stored.class_id))
                request.now
