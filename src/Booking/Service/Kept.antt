-- ===== src/Booking/Service/Kept.antt =====
-- repository_memory.go: the writes that add no standing hold.
use ottodot_trial_booking_se.Prelude.{
  Bool, List, Option, Option-cases, Text, Time, [], arith, false, inl, inr, insert, lookup, not,
  refl, suc, tally, tally-insert_new, tally-insert_old, true, ℤ, ◌∷◌, ◌≡◌, ◌≤◌,
}
use ottodot_trial_booking_se.Identifier.{Minted, mint_failed, minted}
use ottodot_trial_booking_se.Booking.Status.{
  Status, can_transition, cancelled, pending_payment, status_eq,
}
use ottodot_trial_booking_se.Booking.Model.{
  Actor, Booking, CancelRequest, ConfirmRequest, ExpireRequest, FailRequest, hold_is_live, system,
}
use ottodot_trial_booking_se.Booking.Memory.Writes.{
  before_commit_point, cancel, confirm, declined_of, expire, fail, lapsed_of, lock_wait_point,
  lost_of, move, record_event, settle_seat, withdrawn_of, won_of,
}
use ottodot_trial_booking_se.Booking.Memory.Reads.{
  Repository, is_standing_hold, live_holds_for_parent,
}
use ottodot_trial_booking_se.Booking.Memory.Cases.{Outcome, on_found, on_guard}
use ottodot_trial_booking_se.Booking.Errors.{Error, triggered}

module _ {ℓ} {V : Type ℓ} where
  -- A write of a row that fails the test adds nothing to the count, and any write adds at most one.
  pub tally-insert_le :
      (p : Text × V → Bool) (k : Text) (v : V) (m : List (Text × V))
      → p (k, v) ≡ false
      → tally p (insert k v m) ≤ tally p m
  tally-insert_le p k v m h = elim (Option-cases (lookup k m)) [
    | inl e ↦ ground (arith, tally-insert_new p k v m e)
    | inr (w, e) ↦ ground (arith, tally-insert_old p k v w m e)
  ]

  pub tally-insert-suc :
      (p : Text × V → Bool) (k : Text) (v : V) (m : List (Text × V))
      → tally p (insert k v m) ≤ suc (tally p m)
  tally-insert-suc p k v m = elim (Option-cases (lookup k m)) [
    | inl e ↦ ground (arith, tally-insert_new p k v m e)
    | inr (w, e) ↦ ground (arith, tally-insert_old p k v w m e)
  ]

  tally_mono :
      (p q : V → Bool) (m : List V) → ((r : V) → p r ≡ true → q r ≡ true) → tally p m ≤ tally q m
  tally_mono p q [] h = omega arith
  tally_mono p q (r ∷ m) h = ground (arith, tally_mono p q m h, h r)

-- A hold that stands later stands now.
pub standing_mono :
    (repository : Repository) (parent_id : Text) (now later : Time)
    → now ≤ later
    → live_holds_for_parent repository parent_id later
      ≤ live_holds_for_parent repository parent_id now
unfolding live_holds_for_parent is_standing_hold hold_is_live
standing_mono repository parent_id now later h =
    tally_mono (is_standing_hold repository.parents parent_id later)
      (is_standing_hold repository.parents parent_id now) repository.bookings
      λ (k, b) e. ground arith

-- No parent has more standing holds at an instant than before.
abbrev pub Kept : Repository → Outcome → Type 0
Kept repository outcome =
    (parent_id : Text) (now : Time)
    → live_holds_for_parent outcome.0 parent_id now ≤ live_holds_for_parent repository parent_id now

pub live_holds-move :
    (repository : Repository) (mint : Minted) (row : Booking) (from : Status) (actor : Actor)
    (reason : Text) (when : Time) (outcome : Option Error) (parent_id : Text) (now : Time)
    → live_holds_for_parent
        (move repository mint row from actor reason when outcome).0
        parent_id
        now
      ≡ tally
          (is_standing_hold repository.parents parent_id now)
          (insert row.id row repository.bookings)
unfolding move record_event live_holds_for_parent
live_holds-move repository (minted id) row from actor reason when outcome parent_id now = refl
live_holds-move repository (mint_failed why) row from actor reason when outcome parent_id now = refl

retire-Kept :
    (repository : Repository) (mint : Minted) (row : Booking) (from : Status) (actor : Actor)
    (reason : Text) (when : Time) (outcome : Option Error)
    → status_eq row.status pending_payment ≡ false
    → Kept repository (move repository mint row from actor reason when outcome)
unfolding live_holds_for_parent is_standing_hold
retire-Kept repository mint row from actor reason when outcome done parent_id now =
    rw (live_holds-move repository mint row from actor reason when outcome parent_id now) (
      tally-insert_le (is_standing_hold repository.parents parent_id now) row.id row
        repository.bookings (ground arith))

module _ (repository : Repository) (mint : Minted) where
  settle_seat-Kept :
      (stored : Booking) (pick : ℤ × Bool) (now : Time)
      → Kept repository (settle_seat repository mint stored pick now)
  unfolding settle_seat
  settle_seat-Kept stored (seat, false) now =
      retire-Kept repository mint (lost_of stored now) stored.status system _ now _
        (unfold lost_of in refl)
  settle_seat-Kept stored (seat, true) now =
      on_guard (Kept repository) (triggered repository.fault before_commit_point) _ _
        (λ p t. omega arith)
        λ _.
          retire-Kept repository mint (won_of stored seat now) stored.status system _ now _
            (unfold won_of in refl)

  pub confirm-Kept : (request : ConfirmRequest) → Kept repository (confirm repository mint request)
  unfolding confirm
  confirm-Kept request =
      on_guard (Kept repository) (triggered repository.fault lock_wait_point) _ _
        (λ p t. omega arith)
        λ _.
          on_found (Kept repository) (lookup request.booking_id repository.bookings) _ _
            (λ p t. omega arith)
            λ stored _.
              on_guard (Kept repository) (not (status_eq stored.status pending_payment)) _ _
                (λ p t. omega arith)
                λ _.
                  on_found (Kept repository) (lookup stored.class_id repository.classes) _ _
                    (λ p t. omega arith) λ class _. settle_seat-Kept stored _ request.now

  pub cancel-Kept : (request : CancelRequest) → Kept repository (cancel repository mint request)
  unfolding cancel
  cancel-Kept request =
      on_found (Kept repository) (lookup request.booking_id repository.bookings) _ _
        (λ p t. omega arith)
        λ stored _.
          on_guard (Kept repository) (not (can_transition stored.status cancelled)) _ _
            (λ p t. omega arith)
            λ _.
              retire-Kept repository mint (withdrawn_of stored request.now) _ _ _ _ _
                (unfold withdrawn_of in refl)

  pub fail-Kept : (request : FailRequest) → Kept repository (fail repository mint request)
  unfolding fail
  fail-Kept request =
      on_found (Kept repository) (lookup request.booking_id repository.bookings) _ _
        (λ p t. omega arith)
        λ stored _.
          on_guard (Kept repository) (not (status_eq stored.status pending_payment)) _ _
            (λ p t. omega arith)
            λ _.
              retire-Kept repository mint (declined_of stored request.now) _ _ _ _ _
                (unfold declined_of in refl)

  pub expire-Kept : (request : ExpireRequest) → Kept repository (expire repository mint request)
  unfolding expire
  expire-Kept request =
      on_found (Kept repository) (lookup request.booking_id repository.bookings) _ _
        (λ p t. omega arith)
        λ stored _.
          on_guard (Kept repository) (not (status_eq stored.status pending_payment)) _ _
            (λ p t. omega arith)
            λ _.
              on_guard (Kept repository) (hold_is_live stored.hold_expires_at request.now) _ _
                (λ p t. omega arith)
                λ _.
                  retire-Kept repository mint (lapsed_of stored request.now) _ _ _ _ _
                    (unfold lapsed_of in refl)
