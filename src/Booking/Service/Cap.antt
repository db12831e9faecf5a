-- ===== src/Booking/Service/Cap.antt =====
-- service.go and repository_memory.go: how many holds of one parent stand at once.
use ottodot_trial_booking_se.Prelude.{
  List, Text, Text-discrete, Time, [], arith, false, inl, inr, leb_ℤ, lookup, none, pos, some,
  subst, sym, text_cases, text_eq, ℤ, ◌<ℤ◌, ◌∷◌, ◌≡◌, ◌≤ℤ◌, ◌≤◌,
}
use ottodot_trial_booking_se.Identifier.{Minted}
use ottodot_trial_booking_se.Booking.Status.{no_status}
use ottodot_trial_booking_se.Booking.Service.Kept.{
  Kept, cancel-Kept, confirm-Kept, expire-Kept, fail-Kept, live_holds-move, standing_mono,
  tally-insert_le, tally-insert-suc,
}
use ottodot_trial_booking_se.Booking.Model.{HoldRequest, max_holders, parent}
use ottodot_trial_booking_se.Booking.Memory.Writes.{
  cancel, confirm, expire, fail, grant, granted_of, hold,
}
use ottodot_trial_booking_se.Booking.Memory.Schedule.{
  Call, adds_student, cancels, confirms, expires, fails, holds, injects, perform, run,
}
use ottodot_trial_booking_se.Booking.Memory.Reads.{
  Repository, has_live_booking, holders, inject_faults, is_standing_hold, live_holds_for_parent,
}
use ottodot_trial_booking_se.Booking.Memory.Cases.{Outcome, on_found, on_guard}

module _ (repository : Repository) (mint : Minted) where
  granted_elsewhere :
      (request : HoldRequest) (key parent_id holder : Text)
      → lookup request.student_id repository.parents ≡ some holder
      → text_eq holder parent_id ≡ false
      → is_standing_hold repository.parents parent_id request.now (key, granted_of request) ≡ false
  unfolding granted_of is_standing_hold lookup Text-discrete
  granted_elsewhere request key parent_id holder known n = ground arith

  -- A hold is granted below the cap of the request, and counts for one parent.
  grant-capped :
      (request : HoldRequest) (parent_id holder : Text)
      → lookup request.student_id repository.parents ≡ some holder
      → pos (live_holds_for_parent repository holder request.now) <ℤ request.max_holds_per_parent
      → pos (live_holds_for_parent repository parent_id request.now) ≤ℤ request.max_holds_per_parent
      → pos (live_holds_for_parent (grant repository mint request).0 parent_id request.now)
        ≤ℤ request.max_holds_per_parent
  unfolding grant granted_of is_standing_hold live_holds_for_parent
  grant-capped request parent_id holder known room below =
      let standing = is_standing_hold repository.parents parent_id request.now in
      rw
        (live_holds-move repository mint (granted_of request) no_status parent _ request.now none
          parent_id request.now)
        elim (text_cases holder parent_id) [
          | inl (t, same) ↦ omega (
            arith,
            tally-insert-suc standing request.booking_id (granted_of request) repository.bookings,
            rw same at room,
          )
          | inr (t, n) ↦
              let away : standing (request.booking_id, granted_of request) ≡ false =
                granted_elsewhere request request.booking_id parent_id holder known t in
              omega (
                arith,
                tally-insert_le standing request.booking_id (granted_of request) repository.bookings
                    away,
                below,
              )
        ]

-- What the cap promises at an instant: no parent has more standing holds than the limit.
abbrev pub IsCapped : Repository → ℤ → Time → Type 0
IsCapped repository limit now =
    (parent_id : Text) → pos (live_holds_for_parent repository parent_id now) ≤ℤ limit

hold-IsCapped :
    (repository : Repository) (mint : Minted) (request : HoldRequest)
    → IsCapped repository request.max_holds_per_parent request.now
    → IsCapped (hold repository mint request).0 request.max_holds_per_parent request.now
unfolding hold
hold-IsCapped repository mint request v =
    let P = λ (o : Outcome). IsCapped o.0 request.max_holds_per_parent request.now in
    on_found P (lookup request.class_id repository.classes) _ _ v λ class _.
      on_found P (lookup request.student_id repository.parents) _ _ v λ holder known.
        on_guard P (has_live_booking repository request.student_id request.class_id) _ _ v λ _.
          on_guard P
            (leb_ℤ request.max_holds_per_parent
              (pos (live_holds_for_parent repository holder request.now)))
            _ _ v
            λ room.
              on_guard P
                (leb_ℤ (max_holders class) (pos (holders repository request.class_id request.now)))
                _ _ v
                λ _ parent_id.
                  grant-capped repository mint request parent_id holder known (ground arith)
                    (v parent_id)

-- The calls hold at the same limit and at clocks that do not run back, and no child changes
-- parents.
abbrev pub InOrder : ℤ → Time → List Call → Type 0
InOrder limit clock [] = Unit
InOrder limit clock (holds mint request ∷ calls) =
    (clock ≤ request.now) × (request.max_holds_per_parent ≡ limit) × InOrder limit request.now calls
InOrder limit clock (adds_student student_id parent_id ∷ calls) = ⊥
InOrder limit clock (confirms mint request ∷ calls) = InOrder limit clock calls
InOrder limit clock (cancels mint request ∷ calls) = InOrder limit clock calls
InOrder limit clock (fails mint request ∷ calls) = InOrder limit clock calls
InOrder limit clock (expires mint request ∷ calls) = InOrder limit clock calls
InOrder limit clock (injects fault ∷ calls) = InOrder limit clock calls

-- The clock of the last hold.
abbrev pub last_hold : Time → List Call → Time
last_hold clock [] = clock
last_hold clock (holds mint request ∷ calls) = last_hold request.now calls
last_hold clock (confirms mint request ∷ calls) = last_hold clock calls
last_hold clock (cancels mint request ∷ calls) = last_hold clock calls
last_hold clock (fails mint request ∷ calls) = last_hold clock calls
last_hold clock (expires mint request ∷ calls) = last_hold clock calls
last_hold clock (injects fault ∷ calls) = last_hold clock calls
last_hold clock (adds_student student_id parent_id ∷ calls) = last_hold clock calls

Kept-IsCapped :
    (repository : Repository) (outcome : Outcome) (limit : ℤ) (clock : Time)
    → Kept repository outcome
    → IsCapped repository limit clock
    → IsCapped outcome.0 limit clock
Kept-IsCapped repository outcome limit clock k v parent_id =
    omega (arith, k parent_id clock, v parent_id)

later-IsCapped :
    (repository : Repository) (limit : ℤ) (clock later : Time)
    → clock ≤ later
    → IsCapped repository limit clock
    → IsCapped repository limit later
later-IsCapped repository limit clock later h v parent_id =
    omega (arith, standing_mono repository parent_id clock later h, v parent_id)

-- Where no parent has more standing holds than the limit, then after every schedule of calls whose
-- holds carry that limit at clocks that do not run back, and in which no child changes parents, no
-- parent has more standing holds than the limit at the last hold's instant or any later one.
pub run-IsCapped :
    (repository : Repository) (calls : List Call) (limit : ℤ) (clock later : Time)
    → IsCapped repository limit clock
    → InOrder limit clock calls
    → last_hold clock calls ≤ later
    → IsCapped (run repository calls) limit later
unfolding run perform inject_faults
run-IsCapped repository [] limit clock later v order h =
    later-IsCapped repository limit clock later h v
run-IsCapped repository (holds mint request ∷ calls) limit clock later v order h =
    run-IsCapped (hold repository mint request).0 calls limit request.now later
      (subst (λ l. IsCapped (hold repository mint request).0 l request.now) order.1
        (hold-IsCapped repository mint request (
          subst (λ l. IsCapped repository l request.now) (sym order.1)
            (later-IsCapped repository limit clock request.now order.0 v))))
      order.2 h
run-IsCapped repository (confirms mint request ∷ calls) limit clock later v order h =
    run-IsCapped (confirm repository mint request).0 calls limit clock later
      (Kept-IsCapped repository (confirm repository mint request) limit clock
        (confirm-Kept repository mint request) v)
      order h
run-IsCapped repository (cancels mint request ∷ calls) limit clock later v order h =
    run-IsCapped (cancel repository mint request).0 calls limit clock later
      (Kept-IsCapped repository (cancel repository mint request) limit clock
        (cancel-Kept repository mint request) v)
      order h
run-IsCapped repository (fails mint request ∷ calls) limit clock later v order h =
    run-IsCapped (fail repository mint request).0 calls limit clock later
      (Kept-IsCapped repository (fail repository mint request) limit clock
        (fail-Kept repository mint request) v)
      order h
run-IsCapped repository (expires mint request ∷ calls) limit clock later v order h =
    run-IsCapped (expire repository mint request).0 calls limit clock later
      (Kept-IsCapped repository (expire repository mint request) limit clock
        (expire-Kept repository mint request) v)
      order h
run-IsCapped repository (injects fault ∷ calls) limit clock later v order h =
    run-IsCapped (record repository { fault = fault }) calls limit clock later
      (unfold live_holds_for_parent in v) order h
run-IsCapped repository (adds_student student_id parent_id ∷ calls) limit clock later v order h =
    absurd order
