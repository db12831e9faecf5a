-- ===== src/Checkout/Lapsed.antt =====
-- hold.go and the worker's expire_hold.go: from a hold that nobody pays to the place that is free.
use ottodot_trial_booking_se.Queue.Payload.{decoded, decoded-encode, encode-named}
use ottodot_trial_booking_se.Queue.Memory.{written_of}
use ottodot_trial_booking_se.Prelude.{
  IsAscii, is_zero, ◌∙◌, ap, Bool-cases, Option, Option-cases, Text, Time, add_time, arith, false,
  inl, inr, is_empty, lookup, negsuc, none, pos, refl, some, subst, sym, true, ℤ, ◌||◌, ◌≡◌, ◌≤ℤ◌,
  ◌≤◌,
}
use ottodot_trial_booking_se.Identifier.{Minted, mint_failed, minted}
use ottodot_trial_booking_se.Checkout.Service.{
  job_request, Settings, Checkout, HoldReads, HoldResult, hold_place, schedule_expiry, schedule,
}
use ottodot_trial_booking_se.Checkout.Jobs.{Scheduled, schedule-Scheduled}
use ottodot_trial_booking_se.Checkout.Refunded.{behind, scheduled}
use ottodot_trial_booking_se.Worker.Handlers.{System, handle_expiry}
use ottodot_trial_booking_se.Booking.Service.{
  Policy, HoldCommand, hold_booking, hold_request, expire_booking,
}
use ottodot_trial_booking_se.Booking.Memory.Held.{hold-Held, expire-lapses}
use ottodot_trial_booking_se.Booking.Memory.Writes.{hold, granted_of, lapsed_of}
use ottodot_trial_booking_se.Booking.Memory.Cases.{Outcome}
use ottodot_trial_booking_se.Booking.Memory.Reads.{Repository}
use ottodot_trial_booking_se.Booking.Errors.{Error as BookingError, foreign}
use ottodot_trial_booking_se.Booking.Model.{no_booking, Booking}
use ottodot_trial_booking_se.Booking.Status.{expired, pending_payment}
use ottodot_trial_booking_se.Queue.Model.{scheduled_at, expire_hold, Job}

-- The stored row of a hold that waits for its payment.
abbrev pub Waits : Outcome → Type 0
Waits outcome =
    (lookup outcome.1.id outcome.0.bookings ≡ some outcome.1) × (outcome.1.status ≡ pending_payment)

hold_booking-Waits :
    (policy : Policy) (repository : Repository) (id_mint : Minted) (now : Time) (mint : Minted)
    (command : HoldCommand)
    → (hold_booking policy repository id_mint now mint command).2 ≡ none
    → Waits (hold_booking policy repository id_mint now mint command)
unfolding hold_booking hold_request granted_of
hold_booking-Waits policy repository id_mint now mint command =
    elim (Bool-cases (is_empty command.student_id || is_empty command.class_id)) [
      | inl t ↦ rw (t, hold_booking) (λ e. absurd cc)
      | inr t ↦ rw (t, hold_booking) (begun id_mint)
    ]
  where
    begun :
        (m : Minted)
        → let o : Repository × Booking × Option BookingError = elim m [
          | mint_failed why ↦ (repository, no_booking, some (foreign why))
          | minted booking_id ↦ hold repository mint (hold_request policy booking_id command now)
        ] in
          o.2 ≡ none → Waits o
    begun (mint_failed why) e = absurd cc
    begun (minted booking_id) e =
        let request = hold_request policy booking_id command now in
        let (row, stored) = hold-Held repository mint request e in rw row (stored, refl)

-- The place that a call of Hold granted, with its expiry scheduled under an identifier.
abbrev Granted : Settings → Text → HoldReads → Checkout × HoldResult × Option BookingError → Type 0
Granted settings job_id reads answer =
    answer.2 ≡ none
    → answer.1.expiry_scheduled ≡ true
    → Waits (answer.0.bookings, answer.1.booking, none)
      × Scheduled settings job_id expire_hold answer.1.booking.id
          (add_time answer.1.booking.hold_expires_at settings.expiry_grace) reads.enqueued_at
          answer.0.jobs

schedule_expiry-Granted :
    (settings : Settings) (state : Checkout) (reads : HoldReads) (job_id : Text) (granted : Booking)
    → reads.job_mint ≡ minted job_id
    → Waits (state.bookings, granted, none)
    → Granted settings job_id reads (schedule_expiry settings state reads granted)
unfolding schedule_expiry
schedule_expiry-Granted settings state reads job_id granted m waits ok done =
    let run_after = add_time granted.hold_expires_at settings.expiry_grace in
    let job = λ (mint : Minted).
      schedule settings state.jobs mint expire_hold granted.id run_after reads.enqueued_at in
    let written : (job (minted job_id)).1 ≡ none =
      subst (λ mint. (job mint).1 ≡ none) m (scheduled (job reads.job_mint).1 done) in
    (
      waits,
      subst
          (λ mint.
            Scheduled settings job_id expire_hold granted.id run_after reads.enqueued_at
              (job mint).0)
          (sym m)
          (schedule-Scheduled settings state.jobs job_id expire_hold granted.id run_after
            reads.enqueued_at written),
    )

hold_place-Granted :
    (settings : Settings) (policy : Policy) (state : Checkout) (reads : HoldReads)
    (command : HoldCommand) (job_id : Text)
    → reads.job_mint ≡ minted job_id
    → Granted settings job_id reads (hold_place settings policy state reads command)
unfolding hold_place
hold_place-Granted settings policy state reads command job_id m =
    let held =
      hold_booking policy state.bookings reads.booking_mint reads.held_at reads.event_mint
        command in
    elim (Option-cases held.2) [
      | inr (err, e) ↦ rw (e, hold_place) (λ ok. absurd cc)
      | inl e ↦
          rw (e, hold_place)
            (schedule_expiry-Granted settings (record state { bookings = held.0 }) reads job_id
              held.1 m
              (hold_booking-Waits policy state.bookings reads.booking_mint reads.held_at
                reads.event_mint command e))
    ]

expire_booking-lapses :
    (repository : Repository) (event_id booking_id : Text) (now : Time) (stored : Booking)
    → is_empty booking_id ≡ false
    → lookup booking_id repository.bookings ≡ some stored
    → stored.id ≡ booking_id
    → stored.status ≡ pending_payment
    → stored.hold_expires_at ≤ now
    → ((expire_booking repository (minted event_id) booking_id now).2 ≡ none)
      × (lookup booking_id (expire_booking repository (minted event_id) booking_id now).0.bookings
          ≡ some (lapsed_of stored now))
unfolding expire_booking
expire_booking-lapses repository event_id booking_id now stored n e same pending past =
    rw (n, expire_booking)
      (expire-lapses repository event_id (record { booking_id = booking_id; now = now }) stored e
        same pending past)

handle_expiry-lapses :
    (decode : Text → Option Text) (state : System) (event_id booking_id : Text) (now : Time)
    (payload : Text)
    → decode payload ≡ some booking_id
    → (expire_booking state.bookings (minted event_id) booking_id now).2 ≡ none
    → ((handle_expiry decode state (minted event_id) now payload).1 ≡ none)
      × ((handle_expiry decode state (minted event_id) now payload).0.bookings
          ≡ (expire_booking state.bookings (minted event_id) booking_id now).0)
unfolding handle_expiry
handle_expiry-lapses decode state event_id booking_id now payload d e =
    rw (d, e, handle_expiry) (refl, refl)

-- An unpaid hold ends: where the grace is not negative, a Hold that granted a booking with its expiry
-- scheduled has put an expiry job in the queue, due at the deadline of the booking and the grace;
-- and a run of that job on the state that the Hold left, with the payload read back by a decoder that
-- inverts the encoder on ASCII identifiers, of which the booking's is one, and a minted identifier
-- for the audit line, at any instant from the one at which the job is due (not the zero instant),
-- reports no failure and leaves the booking expired, with nothing else changed but the times.
pub unpaid_hold_lapses :
    (settings : Settings) (policy : Policy) (state : Checkout) (reads : HoldReads)
    (command : HoldCommand) (job_id event_id : Text) (unmarshal : Text → Option Text) (now : Time)
    → reads.job_mint ≡ minted job_id
    → pos 0 ≤ℤ settings.expiry_grace
    → ((id payload : Text)
        → IsAscii id
        → settings.marshal id ≡ some payload
        → unmarshal payload ≡ some id)
    → (hold_place settings policy state reads command).2 ≡ none
    → (hold_place settings policy state reads command).1.expiry_scheduled ≡ true
    → IsAscii (hold_place settings policy state reads command).1.booking.id
    → is_zero (
        add_time
          (hold_place settings policy state reads command).1.booking.hold_expires_at
          settings.expiry_grace)
      ≡ false
    → let granted = (hold_place settings policy state reads command).1.booking in
      let after = (hold_place settings policy state reads command).0 in
      add_time granted.hold_expires_at settings.expiry_grace ≤ now
      → (job : Job) × (lookup job_id after.jobs ≡ some job)
        × (job.kind ≡ expire_hold)
        × (job.run_after ≡ add_time granted.hold_expires_at settings.expiry_grace)
        × ((handle_expiry (decoded unmarshal) (behind after) (minted event_id) now job.payload).1
            ≡ none)
        × (lookup granted.id
              (handle_expiry
                (decoded unmarshal)
                (behind after)
                (minted event_id)
                now
                job.payload).0.bookings.bookings
            ≡ some (record granted { status = expired; hold_expires_at = 0; updated_at = now }))
unfolding written_of job_request scheduled_at lapsed_of
unpaid_hold_lapses settings policy state reads command job_id event_id unmarshal now m grace back ok
      done plain set due =
    let answer = hold_place settings policy state reads command in
    let (waits, job) = hold_place-Granted settings policy state reads command job_id m ok done in
    let granted = answer.1.booking in
    let read =
      decoded-encode settings.marshal unmarshal granted.id
        (λ payload e. back granted.id payload plain e) job.0 in
    let full = encode-named settings.marshal granted.id job.0 in
    let past : granted.hold_expires_at ≤ now =
      deadline_first granted.hold_expires_at settings.expiry_grace now grace due in
    let lapsed =
      expire_booking-lapses answer.0.bookings event_id granted.id now granted full waits.0 refl
        waits.1 past in
    let run =
      handle_expiry-lapses (decoded unmarshal) (behind answer.0) event_id granted.id now _ read
        lapsed.0 in
    (_, job.1, refl, rw set refl, run.0, ap (λ r. lookup granted.id r.bookings) run.1 ∙ lapsed.1)
  where
    deadline_first :
        (t : Time) (grace : ℤ) (now : Time) → pos 0 ≤ℤ grace → add_time t grace ≤ now → t ≤ now
    deadline_first t (pos g) now low due = omega arith
    deadline_first t (negsuc g) now low due = absurd (omega arith)
