-- ===== src/Booking/Memory/Held.antt =====
-- repository_memory.go: the row of a hold that was granted, and its end at the deadline.
use ottodot_trial_booking_se.Prelude.{
  Text, arith, false, insert, leb_ℤ, lookup, lookup-insert_self, none, not, pos, refl, some, subst,
  ◌≡◌, ◌≤◌,
}
use ottodot_trial_booking_se.Identifier.{Minted, mint_failed, minted}
use ottodot_trial_booking_se.Booking.Memory.Cases.{Outcome, on_found, on_guard}
use ottodot_trial_booking_se.Booking.Model.{
  hold_is_live, max_holders, HoldRequest, ExpireRequest, Booking,
}
use ottodot_trial_booking_se.Booking.Memory.Writes.{
  record_event, hold, grant, granted_of, expire, lapsed_of, move,
}
use ottodot_trial_booking_se.Booking.Memory.Reads.{
  has_live_booking, holders, live_holds_for_parent, Repository,
}
use ottodot_trial_booking_se.Booking.Status.{status_eq, pending_payment}

-- A hold without an error answers the row that it stored.
abbrev pub Held : HoldRequest → Outcome → Type 0
Held request outcome =
    outcome.2 ≡ none
    → (outcome.1 ≡ granted_of request)
      × (lookup request.booking_id outcome.0.bookings ≡ some (granted_of request))

grant-Held :
    (repository : Repository) (mint : Minted) (request : HoldRequest)
    → Held request (grant repository mint request)
unfolding grant granted_of move record_event
grant-Held repository (mint_failed why) request e = absurd cc
grant-Held repository (minted id) request e =
    (refl, lookup-insert_self request.booking_id (granted_of request) repository.bookings)

pub hold-Held :
    (repository : Repository) (mint : Minted) (request : HoldRequest)
    → Held request (hold repository mint request)
unfolding hold
hold-Held repository mint request =
    on_found (Held request) (lookup request.class_id repository.classes) _ _ (λ e. absurd cc)
      λ class _.
        on_found (Held request) (lookup request.student_id repository.parents) _ _ (λ e. absurd cc)
          λ holder _.
            on_guard (Held request)
              (has_live_booking repository request.student_id request.class_id) _ _ (λ e. absurd cc)
              λ _.
                on_guard (Held request)
                  (leb_ℤ request.max_holds_per_parent
                    (pos (live_holds_for_parent repository holder request.now)))
                  _ _ (λ e. absurd cc)
                  λ _.
                    on_guard (Held request)
                      (leb_ℤ (max_holders class)
                        (pos (holders repository request.class_id request.now)))
                      _ _ (λ e. absurd cc) λ _. grant-Held repository mint request

-- A stored hold whose deadline has passed is let go.
pub expire-lapses :
    (repository : Repository) (event_id : Text) (request : ExpireRequest) (stored : Booking)
    → lookup request.booking_id repository.bookings ≡ some stored
    → stored.id ≡ request.booking_id
    → stored.status ≡ pending_payment
    → stored.hold_expires_at ≤ request.now
    → ((expire repository (minted event_id) request).2 ≡ none)
      × (lookup request.booking_id (expire repository (minted event_id) request).0.bookings
          ≡ some (lapsed_of stored request.now))
unfolding expire move record_event lapsed_of
expire-lapses repository event_id request stored e same pending past =
    let waiting : not (status_eq stored.status pending_payment) ≡ false = rw pending refl in
    let over : hold_is_live stored.hold_expires_at request.now ≡ false =
      unfold hold_is_live in ground arith in
    let wrote = lookup-insert_self stored.id (lapsed_of stored request.now) repository.bookings in
    rw (e, waiting, over, expire)
      (
        refl,
        subst
            (λ k.
              lookup k (insert stored.id (lapsed_of stored request.now) repository.bookings)
              ≡ some (lapsed_of stored request.now))
            same wrote,
      )
