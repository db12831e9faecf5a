-- ===== src/Worker/Closing.antt =====
-- reconcile_refund.go: what a run of the refund job that reports no failure has done.
use ottodot_trial_booking_se.Worker.Handlers.{
  System, close_refunded, handle_refund, refund_reason, send_back,
}
use ottodot_trial_booking_se.Payment.Service.{refund_booking}
use ottodot_trial_booking_se.Booking.Service.{cancel_booking, read_booking}
use ottodot_trial_booking_se.Booking.Memory.Reads.{get_booking, Repository as BookingRepository}
use ottodot_trial_booking_se.Booking.Errors.{Error as BookingError}
use ottodot_trial_booking_se.Prelude.{
  pos, Option-cases, ap, false, inl, inr, is_empty, sym, ◌∙◌, Option, Text, Time, lookup,
  lookup-insert_self, none, refl, some, subst, true, ◌≡◌,
}
use ottodot_trial_booking_se.Identifier.{Minted, mint_failed, minted}
use ottodot_trial_booking_se.Booking.Status.{
  status_eq, Status, can_transition, cancelled, refund_required,
}
use ottodot_trial_booking_se.Booking.Model.{payment, Actor, Booking, CancelRequest}
use ottodot_trial_booking_se.Booking.Memory.Writes.{cancel, move, record_event, withdrawn_of}

move-lookup :
    (repository : BookingRepository) (mint : Minted) (row : Booking) (from : Status) (actor : Actor)
    (reason : Text) (now : Time) (outcome : Option BookingError)
    → lookup row.id (move repository mint row from actor reason now outcome).0.bookings ≡ some row
unfolding move record_event
move-lookup repository (minted id) row from actor reason now outcome =
    lookup-insert_self row.id row repository.bookings
move-lookup repository (mint_failed why) row from actor reason now outcome =
    lookup-insert_self row.id row repository.bookings

cancel-closes :
    (repository : BookingRepository) (mint : Minted) (request : CancelRequest) (stored : Booking)
    → lookup request.booking_id repository.bookings ≡ some stored
    → stored.id ≡ request.booking_id
    → stored.status ≡ refund_required
    → lookup request.booking_id (cancel repository mint request).0.bookings
      ≡ some (withdrawn_of stored request.now)
unfolding cancel withdrawn_of can_transition
cancel-closes repository mint request stored e same owed =
    let legal : can_transition stored.status cancelled ≡ true = rw owed refl in
    let wrote =
      move-lookup repository mint (withdrawn_of stored request.now) stored.status request.actor
        request.reason request.now none in
    rw (e, legal, cancel)
      (subst
        (λ id.
          lookup id
            (move repository mint (withdrawn_of stored request.now) stored.status request.actor
              request.reason request.now none).0.bookings
          ≡ some (withdrawn_of stored request.now))
        same wrote)

cancel_booking-closes :
    (repository : BookingRepository) (mint : Minted) (booking_id : Text) (actor : Actor)
    (reason : Text) (now : Time) (stored : Booking)
    → is_empty booking_id ≡ false
    → lookup booking_id repository.bookings ≡ some stored
    → stored.id ≡ booking_id
    → stored.status ≡ refund_required
    → lookup booking_id (cancel_booking repository mint booking_id actor reason now).0.bookings
      ≡ some (withdrawn_of stored now)
unfolding cancel_booking
cancel_booking-closes repository mint booking_id actor reason now stored n e same owed =
    rw (n, cancel_booking) (cancel-closes repository mint _ stored e same owed)

send_back-done :
    (state : System) (mint : Minted) (booking_id : Text) (refunded now : Time) (stored : Booking)
    → is_empty booking_id ≡ false
    → lookup booking_id state.bookings.bookings ≡ some stored
    → stored.id ≡ booking_id
    → stored.status ≡ refund_required
    → (send_back state mint booking_id refunded now).1 ≡ none
    → ((refund_booking state.payments refunded booking_id).2 ≡ none)
      × (lookup booking_id (send_back state mint booking_id refunded now).0.bookings.bookings
          ≡ some (withdrawn_of stored now))
unfolding send_back close_refunded
send_back-done state mint booking_id refunded now stored n e same owed =
    elim (Option-cases (refund_booking state.payments refunded booking_id).2) [
      | inr (err, r) ↦ rw (r, send_back) (λ done. absurd cc)
      | inl r ↦
          rw (r, send_back)
            (let closed =
                cancel_booking-closes state.bookings mint booking_id payment refund_reason now
                  stored n e same owed in
              elim (Option-cases
                (cancel_booking state.bookings mint booking_id payment refund_reason now).2) [
                  | inr (err, c) ↦ rw (c, close_refunded) (λ done. absurd cc)
                  | inl c ↦ rw (c, close_refunded) (λ done. (refl, closed))
                ])
    ]

pub read_booking-found :
    (repository : BookingRepository) (booking_id : Text) (stored : Booking)
    → is_empty booking_id ≡ false
    → lookup booking_id repository.bookings ≡ some stored
    → read_booking repository booking_id ≡ (stored, none)
unfolding read_booking get_booking
read_booking-found repository booking_id stored n e = rw (n, e, get_booking) refl

-- Where a run of the refund job for a stored booking in refund_required reports no failure, the
-- refund was answered and the booking is cancelled, its row changed in nothing else than the status,
-- the seat, the deadline and the time of the change.
pub refund_job_done :
    (decode : Text → Option Text) (state : System) (mint : Minted) (refunded now : Time)
    (payload booking_id : Text) (stored : Booking)
    → decode payload ≡ some booking_id
    → is_empty booking_id ≡ false
    → lookup booking_id state.bookings.bookings ≡ some stored
    → stored.id ≡ booking_id
    → stored.status ≡ refund_required
    → (handle_refund decode state mint refunded now payload).1 ≡ none
    → ((refund_booking state.payments refunded booking_id).2 ≡ none)
      × (lookup booking_id
            (handle_refund decode state mint refunded now payload).0.bookings.bookings
          ≡ some (record stored {
            status = cancelled;
            seat_no = pos 0;
            hold_expires_at = 0;
            updated_at = now;
          }))
unfolding handle_refund withdrawn_of
refund_job_done decode state mint refunded now payload booking_id stored d n e same owed done =
    let read = read_booking-found state.bookings booking_id stored n e in
    let found : (read_booking state.bookings booking_id).1 ≡ none = ap (λ r. r.1) read in
    let owing : status_eq (read_booking state.bookings booking_id).0.status refund_required ≡ true =
      ap (λ r. status_eq r.0.status refund_required) read
      ∙ ap (λ s. status_eq s refund_required) owed in
    let runs : handle_refund decode state mint refunded now payload
        ≡ send_back state mint booking_id refunded now =
      rw (d, found, owing, handle_refund) refl in
    let ended : (send_back state mint booking_id refunded now).1 ≡ none =
      ap (λ r. r.1) (sym runs) ∙ done in
    rw runs (send_back-done state mint booking_id refunded now stored n e same owed ended)
