-- ===== src/Checkout/Refunded.antt =====
-- pay.go and the worker's reconcile_refund.go: from the lost seat to the money that is back.
use ottodot_trial_booking_se.Worker.Success.{refund_job_succeeds}
use ottodot_trial_booking_se.Worker.Closing.{refund_job_done}
use ottodot_trial_booking_se.Queue.Payload.{
  decoded-encode, encode-named, decoded, encode_booking_payload,
}
use ottodot_trial_booking_se.Queue.Memory.{written_of}
use ottodot_trial_booking_se.Payment.Provider.{is_provider_error}
use ottodot_trial_booking_se.Payment.Service.{refund_booking, pay as pay_payments}
use ottodot_trial_booking_se.Payment.Service.Refundable.{
  IsRefundable, refund_booking-answers, pay-Refundable,
}
use ottodot_trial_booking_se.Payment.Memory.Laws.{IsKept}
use ottodot_trial_booking_se.Checkout.Paid.{confirm_booking-Decided, end_on_decline-err}
use ottodot_trial_booking_se.Booking.Memory.Invariant.{IsSound}
use ottodot_trial_booking_se.Queue.Model.{Job, reconcile_refund}
use ottodot_trial_booking_se.Prelude.{
  IsAscii, pos, Time, Option, arith, false, is_empty, is_some, lookup, not, refl, subst, sym, Text,
  none, some, true, ◌≡◌,
}
use ottodot_trial_booking_se.Payment.Service.Funded.{IsFunded}
use ottodot_trial_booking_se.Payment.Service.{settled_attempt}
use ottodot_trial_booking_se.Payment.Memory.{attempts_for}
use ottodot_trial_booking_se.Identifier.{Minted, minted}
use ottodot_trial_booking_se.Checkout.Jobs.{Scheduled, schedule-Scheduled}
use ottodot_trial_booking_se.Booking.Status.{cancelled, refund_required}
use ottodot_trial_booking_se.Booking.Model.{Booking}
use ottodot_trial_booking_se.Booking.Memory.Decided.{Leaves}
use ottodot_trial_booking_se.Checkout.Service.{
  job_request, ScheduleError, payment_command, schedule, Settings, Checkout, PayReads, PayCommand,
  pay, of_booking, queue_refund,
}
use ottodot_trial_booking_se.Checkout.Cases.{Ended, on_pay, on_decide, paying, paid_state}
use ottodot_trial_booking_se.Worker.Handlers.{System, handle_refund}
use ottodot_trial_booking_se.Booking.Errors.{err_seat_lost}
use ottodot_trial_booking_se.Payment.Model.{Attempt}

-- The state that the worker sees after the checkout.
abbrev pub behind : Checkout → System
behind state = record { bookings = state.bookings; payments = state.payments }

pub scheduled : (err : Option ScheduleError) → not (is_some err) ≡ true → err ≡ none
scheduled none e = refl
scheduled (some err) e = absurd cc

queue_refund-Scheduled :
    (settings : Settings) (state : Checkout) (reads : PayReads) (job_id booking_id : Text)
    (lost : Booking) (attempt : Attempt)
    → reads.job_mint ≡ minted job_id
    → lost.id ≡ booking_id
    → (queue_refund settings state reads lost attempt).1.refund_scheduled ≡ true
    → Scheduled settings job_id reconcile_refund booking_id reads.run_at reads.enqueued_at
        (queue_refund settings state reads lost attempt).0.jobs
unfolding queue_refund
queue_refund-Scheduled settings state reads job_id booking_id lost attempt m own done =
    let job = λ (mint : Minted).
      schedule settings state.jobs mint reconcile_refund lost.id reads.run_at reads.enqueued_at in
    let ok : (job (minted job_id)).1 ≡ none =
      subst (λ mint. (job mint).1 ≡ none) m (scheduled (job reads.job_mint).1 done) in
    subst
      (λ mint.
        Scheduled settings job_id reconcile_refund booking_id reads.run_at reads.enqueued_at
          (job mint).0)
      (sym m)
      (subst
        (λ b.
          Scheduled settings job_id reconcile_refund b reads.run_at reads.enqueued_at
            (job (minted job_id)).0)
        own
        (schedule-Scheduled settings state.jobs job_id reconcile_refund lost.id reads.run_at
          reads.enqueued_at ok))

-- What the parent's call must meet: sound rows on both sides, and identifiers that are minted, new
-- and not empty.
pub record IsReady (state : Checkout) (reads : PayReads) (attempt_id job_id : Text) : Type 0 where
  pub sound : IsSound state.bookings
  pub kept : IsKept state.payments.repository
  pub funded : IsFunded state.payments.repository
  pub minting : reads.attempt_mint ≡ minted attempt_id
  pub fresh : lookup attempt_id state.payments.repository.attempts ≡ none
  pub named : is_empty attempt_id ≡ false
  pub job_minting : reads.job_mint ≡ minted job_id

-- The answer of a lost seat with its refund scheduled leaves the row that is owed the refund, the
-- job, and a charge to send back.
abbrev Owed : Settings → Text → PayReads → PayCommand → Ended → Type 0
Owed settings job_id reads command ended =
    ended.2 ≡ some (of_booking err_seat_lost)
    → ended.1.refund_scheduled ≡ true
    → Leaves command.booking_id refund_required (ended.0.bookings, ended.1.booking, none)
      × Scheduled settings job_id reconcile_refund command.booking_id reads.run_at reads.enqueued_at
          ended.0.jobs
      × ((paid : Attempt) × (settled_attempt
              (attempts_for ended.0.payments.repository command.booking_id)
            ≡ some paid)
          × IsRefundable command.booking_id paid)

module _ (settings : Settings) (state : Checkout) (reads : PayReads) (command : PayCommand)
    (attempt_id job_id : Text) (ready : IsReady state reads attempt_id job_id) where
  refundable :
      (paying state reads command).2 ≡ none
      → (paid : Attempt) × (settled_attempt
            (attempts_for (paying state reads command).0.repository command.booking_id)
          ≡ some paid)
        × IsRefundable command.booking_id paid
  unfolding payment_command
  refundable =
      subst
        (λ mint.
          (pay_payments state.payments mint reads.begun_at reads.settled_at
              (payment_command command)).2
            ≡ none
          → (paid : Attempt) × (settled_attempt (
                attempts_for
                  (pay_payments state.payments mint reads.begun_at reads.settled_at
                    (payment_command command)).0.repository
                  command.booking_id)
              ≡ some paid)
            × IsRefundable command.booking_id paid)
        (sym ready.minting)
        (pay-Refundable state.payments attempt_id reads.begun_at reads.settled_at
          (payment_command command) ready.kept ready.funded ready.fresh ready.named)

  pub pay-Owed : Owed settings job_id reads command (pay settings state reads command)
  pay-Owed =
      on_pay settings state reads command (Owed settings job_id reads command)
        (λ err a e. absurd cc)
        (λ d e.
          let told =
            end_on_decline-err (paid_state state reads command) reads command.booking_id
              (paying state reads command).1 in
          absurd cc)
        (λ err n f e. absurd cc)
        λ accepted ok.
          on_decide settings (paid_state state reads command) reads
            (Owed settings job_id reads command) command.booking_id (paying state reads command).1
            (λ won e. absurd cc)
            (λ lost e done.
              let seat =
                (confirm_booking-Decided state.bookings reads.event_mint command.booking_id
                    reads.decided_at ready.sound).1
                  lost in
              (
                unfold queue_refund in seat,
                queue_refund-Scheduled settings _ reads job_id command.booking_id _ _
                    ready.job_minting seat.1 done,
                unfold queue_refund in refundable ok,
              ))
            λ err n undone e done. absurd (ground arith)

-- A lost seat is repaid: where the call meets its conditions (IsReady), a Pay that answers that the
-- seat was lost with its refund scheduled has put a refund job in the queue, and a run of that job,
-- with the payload read back by a decoder that inverts the encoder on ASCII identifiers, of which
-- the booking's is one, with a minted identifier for
-- the audit line and with no refusal forced at the provider, reports no failure, has its refund
-- answered, and leaves the booking cancelled, with nothing else changed but the seat and the times.
pub lost_seat_is_repaid :
    (settings : Settings) (state : Checkout) (reads : PayReads) (command : PayCommand)
    (attempt_id job_id event_id : Text) (unmarshal : Text → Option Text) (refunded now : Time)
    → IsReady state reads attempt_id job_id
    → ((id payload : Text)
        → IsAscii id
        → settings.marshal id ≡ some payload
        → unmarshal payload ≡ some id)
    → IsAscii command.booking_id
    → (pay settings state reads command).2 ≡ some (of_booking err_seat_lost)
    → (pay settings state reads command).1.refund_scheduled ≡ true
    → is_provider_error
        (lookup command.booking_id (pay settings state reads command).0.payments.provider.forced)
      ≡ false
    → let system_behind = behind (pay settings state reads command).0 in
      (job : Job) × (lookup job_id (pay settings state reads command).0.jobs ≡ some job)
      × (job.kind ≡ reconcile_refund)
      × ((handle_refund
            (decoded unmarshal)
            system_behind
            (minted event_id)
            refunded
            now
            job.payload).1
          ≡ none)
      × ((refund_booking system_behind.payments refunded command.booking_id).2 ≡ none)
      × (lookup command.booking_id
            (handle_refund
              (decoded unmarshal)
              system_behind
              (minted event_id)
              refunded
              now
              job.payload).0.bookings.bookings
          ≡ some (record ((pay settings state reads command).1.booking) {
            status = cancelled;
            seat_no = pos 0;
            hold_expires_at = 0;
            updated_at = now;
          }))
unfolding written_of job_request
lost_seat_is_repaid settings state reads command attempt_id job_id event_id unmarshal refunded now
      ready back plain lost done willing =
    let (row, job, owing) =
      pay-Owed settings state reads command attempt_id job_id ready lost done in
    let payload = (encode_booking_payload settings.marshal command.booking_id).0 in
    let read : decoded unmarshal payload ≡ some command.booking_id =
      decoded-encode settings.marshal unmarshal command.booking_id
        (λ payload e. back command.booking_id payload plain e) job.0 in
    let full : is_empty command.booking_id ≡ false =
      encode-named settings.marshal command.booking_id job.0 in
    let (paid, found, good) = owing in
    let answered =
      refund_booking-answers (pay settings state reads command).0.payments refunded
        command.booking_id paid full found good willing in
    let succeeds =
      refund_job_succeeds (decoded unmarshal) (behind (pay settings state reads command).0) event_id
        refunded now payload command.booking_id _ read full row.0 row.2 answered in
    let closed =
      refund_job_done (decoded unmarshal) (behind (pay settings state reads command).0)
        (minted event_id) refunded now payload command.booking_id _ read full row.0 row.1 row.2
        succeeds in
    (_, job.1, refl, succeeds, answered, closed.1)
