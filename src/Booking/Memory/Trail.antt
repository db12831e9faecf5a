-- ===== src/Booking/Memory/Trail.antt =====
-- The audit trail of repository_memory.go as a path of the state machine of status.go.
pub mod Methods
use ottodot_trial_booking_se.Booking.Seat.{lowest_free_seat}
use ottodot_trial_booking_se.Booking.Memory.Safety.{own_key}
use ottodot_trial_booking_se.Booking.Memory.Invariant.{IsSound}
use ottodot_trial_booking_se.Booking.Memory.Cases.{on_found, on_guard}
use ottodot_trial_booking_se.Prelude.{
  arith, false, insert, lookup_or-insert_ne, lookup_or-insert_self, ℤ, lookup-insert, not,
  some-injective, subst, Bool, List, Option, Text, Time, [], if◌then◌else◌, inl, inr, lookup,
  lookup_or, none, refl, some, sym, text_cases, true, ◌++◌, ◌∙◌, ◌∷◌, ◌≡◌,
}
use ottodot_trial_booking_se.Identifier.{Minted, mint_failed, minted}
use ottodot_trial_booking_se.Booking.Status.{
  confirmed, expired, other, payment_failed, refund_required, cancelled, Status, can_transition,
  no_status, pending_payment, status_eq,
}
use ottodot_trial_booking_se.Booking.Model.{
  ConfirmRequest, ExpireRequest, FailRequest, HoldRequest, hold_is_live, parent, payment, system,
  CancelRequest, Actor, Booking, Event,
}
use ottodot_trial_booking_se.Booking.Memory.Writes.{
  before_commit_point, confirm, declined_of, expire, fail, grant, granted_of, lapsed_of,
  lock_wait_point, lost_of, settle_seat, won_of, cancel, withdrawn_of, move, record_event,
}
use ottodot_trial_booking_se.Booking.Memory.Rollback.{IsMinted}
use ottodot_trial_booking_se.Booking.Memory.Reads.{seats_taken, Repository}
use ottodot_trial_booking_se.Booking.Errors.{triggered, Error}

-- A move that the trail may record: a booking is created pending, and then follows the table.
unfoldable pub is_legal : Status → Status → Bool
is_legal from to =
    if status_eq from no_status then status_eq to pending_payment else can_transition from to

-- The trail of a booking leads from one status to another, each line starting where the last ended.
abbrev pub Leads : Text → Status → List Event → Status → Type 0
Leads key s [] t = s ≡ t
Leads key s (e ∷ es) t =
    (e.booking_id ≡ key)
    × (e.from_status ≡ s)
    × (is_legal s e.to_status ≡ true)
    × Leads key e.to_status es t

Leads-append :
    (key : Text) (s t : Status) (es : List Event) (e : Event)
    → Leads key s es t
    → e.booking_id ≡ key
    → e.from_status ≡ t
    → is_legal t e.to_status ≡ true
    → Leads key s (es ++ e ∷ []) e.to_status
Leads-append key s t [] e h k f l = (k, f ∙ sym h, rw h l, refl)
Leads-append key s t (d ∷ es) e h k f l =
    (h.0, h.1, h.2, Leads-append key d.to_status t es e h.3 k f l)

pub record IsTrailed (repository : Repository) : Type 0 where
  pub trails :
      (key : Text) (row : Booking)
      → lookup key repository.bookings ≡ some row
      → Leads key no_status (lookup_or [] key repository.events) row.status
  pub untouched :
      (key : Text) → lookup key repository.bookings ≡ none → lookup_or [] key repository.events ≡ []

pub move-IsTrailed :
    (repository : Repository) (mint : Minted) (row : Booking) (from : Status) (actor : Actor)
    (reason : Text) (now : Time) (outcome : Option Error)
    → IsMinted mint
    → IsTrailed repository
    → Leads row.id no_status (lookup_or [] row.id repository.events) from
    → is_legal from row.status ≡ true
    → IsTrailed (move repository mint row from actor reason now outcome).0
unfolding move record_event
move-IsTrailed repository (mint_failed why) row from actor reason now outcome m h leads legal =
    absurd m
move-IsTrailed repository (minted id) row from actor reason now outcome m h leads legal =
    let trail = lookup_or [] row.id repository.events in
    let line : Event = record {
      id = id;
      booking_id = row.id;
      from_status = from;
      to_status = row.status;
      actor = actor;
      reason = reason;
      created_at = now;
    } in
    let events = repository.events in
    record {
      trails = λ key r found. elim (text_cases row.id key) [
        | inl (t, same) ↦
            let e : some row ≡ some r =
              rw (lookup-insert row.id key row repository.bookings, t) at found in
            subst
              (λ k.
                Leads k no_status (lookup_or [] k (insert row.id (trail ++ line ∷ []) events))
                  r.status)
              same
              (subst (λ es. Leads row.id no_status es r.status)
                (sym (lookup_or-insert_self [] row.id (trail ++ line ∷ []) events))
                (subst (λ (q : Booking). Leads row.id no_status (trail ++ line ∷ []) q.status)
                  (some-injective row r e)
                  (Leads-append row.id no_status from trail line leads refl refl legal)))
        | inr (t, away) ↦
            let e : lookup key repository.bookings ≡ some r =
              rw (lookup-insert row.id key row repository.bookings, t) at found in
            subst (λ es. Leads key no_status es r.status)
              (sym (lookup_or-insert_ne [] row.id key (trail ++ line ∷ []) events away))
              (h.trails key r e)
      ];
      untouched = λ key gone. elim (text_cases row.id key) [
        | inl (t, same) ↦
            let e : some row ≡ none =
              rw (lookup-insert row.id key row repository.bookings, t) at gone in
            cc
        | inr (t, away) ↦
            let e : lookup key repository.bookings ≡ none =
              rw (lookup-insert row.id key row repository.bookings, t) at gone in
            lookup_or-insert_ne [] row.id key (trail ++ line ∷ []) events away ∙ h.untouched key e
      ];
    }

pub legal_of : (from to : Status) → not (can_transition from to) ≡ false → is_legal from to ≡ true
unfolding is_legal can_transition
legal_of (other s) to ok = cc
legal_of from to ok = ground arith

pub created_legal : is_legal no_status pending_payment ≡ true
unfolding is_legal
created_legal = ground arith

pub legal_from_pending :
    (from to : Status)
    → not (status_eq from pending_payment) ≡ false
    → can_transition pending_payment to ≡ true
    → is_legal from to ≡ true
unfolding is_legal can_transition
legal_from_pending from to ok legal = ground arith
