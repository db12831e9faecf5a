-- ===== src/Worker/Success.antt =====
-- reconcile_refund.go: a run of the refund job that nothing hinders.
use ottodot_trial_booking_se.Prelude.{
  Option, Text, Time, ap, false, is_empty, lookup, none, refl, some, true, ◌∙◌, ◌≡◌,
}
use ottodot_trial_booking_se.Payment.Service.{refund_booking}
use ottodot_trial_booking_se.Identifier.{minted}
use ottodot_trial_booking_se.Booking.Service.{cancel_booking, read_booking}
use ottodot_trial_booking_se.Booking.Memory.Writes.{cancel, move, record_event}
use ottodot_trial_booking_se.Worker.Handlers.{
  System, close_refunded, handle_refund, refund_reason, send_back,
}
use ottodot_trial_booking_se.Worker.Closing.{read_booking-found}
use ottodot_trial_booking_se.Booking.Memory.Reads.{Repository}
use ottodot_trial_booking_se.Booking.Model.{Booking, CancelRequest, Actor, payment}
use ottodot_trial_booking_se.Booking.Status.{can_transition, cancelled, status_eq, refund_required}

cancel-answers :
    (repository : Repository) (event_id : Text) (request : CancelRequest) (stored : Booking)
    → lookup request.booking_id repository.bookings ≡ some stored
    → stored.status ≡ refund_required
    → (cancel repository (minted event_id) request).2 ≡ none
unfolding cancel can_transition move record_event
cancel-answers repository event_id request stored e owed =
    let legal : can_transition stored.status cancelled ≡ true = rw owed refl in
    rw (e, legal, cancel) refl

cancel_booking-answers :
    (repository : Repository) (event_id booking_id : Text) (actor : Actor) (reason : Text)
    (now : Time) (stored : Booking)
    → is_empty booking_id ≡ false
    → lookup booking_id repository.bookings ≡ some stored
    → stored.status ≡ refund_required
    → (cancel_booking repository (minted event_id) booking_id actor reason now).2 ≡ none
unfolding cancel_booking
cancel_booking-answers repository event_id booking_id actor reason now stored n e owed =
    rw (n, cancel_booking) (cancel-answers repository event_id _ stored e owed)

-- Where the booking is stored in refund_required and the refund is answered, the job reports no
-- failure.
pub refund_job_succeeds :
    (decode : Text → Option Text) (state : System) (event_id : Text) (refunded now : Time)
    (payload booking_id : Text) (stored : Booking)
    → decode payload ≡ some booking_id
    → is_empty booking_id ≡ false
    → lookup booking_id state.bookings.bookings ≡ some stored
    → stored.status ≡ refund_required
    → (refund_booking state.payments refunded booking_id).2 ≡ none
    → (handle_refund decode state (minted event_id) refunded now payload).1 ≡ none
unfolding handle_refund send_back close_refunded
refund_job_succeeds decode state event_id refunded now payload booking_id stored d n e owed back =
    let read = read_booking-found state.bookings booking_id stored n e in
    let found : (read_booking state.bookings booking_id).1 ≡ none = ap (λ r. r.1) read in
    let owing : status_eq (read_booking state.bookings booking_id).0.status refund_required ≡ true =
      ap (λ r. status_eq r.0.status refund_required) read
      ∙ ap (λ s. status_eq s refund_required) owed in
    let closed =
      cancel_booking-answers state.bookings event_id booking_id payment refund_reason now stored n e
        owed in
    rw (d, found, owing, back, closed, handle_refund, send_back, close_refunded) refl
