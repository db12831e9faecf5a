-- ===== src/Checkout/Service.antt =====
-- backend/internal/checkout: service.go, hold.go and pay.go. The three domains are one state. What a
-- call mints and reads from the clocks is an argument; the metrics have no part in the answer.
use ottodot_trial_booking_se.Queue.Payload.{PayloadError, encode_booking_payload}
use ottodot_trial_booking_se.Prelude.{
  Bool, Duration, Option, Text, Time, add_time, false, if◌then◌else◌, is_some, ltb_ℤ, none, not,
  pos, seconds, some, true,
}
use ottodot_trial_booking_se.Identifier.{Minted, mint_failed, minted}
use ottodot_trial_booking_se.Checkout.Price.{accept_amount}
use ottodot_trial_booking_se.Booking.Service.{
  HoldCommand, Policy, confirm_booking, fail_booking, hold_booking,
}
use ottodot_trial_booking_se.Booking.Model.{Booking, no_booking}
use ottodot_trial_booking_se.Booking.Memory.Reads.{Repository}
use ottodot_trial_booking_se.Booking.Errors.{Error as BookingError, err_seat_lost}
use ottodot_trial_booking_se.Payment.Model.{
  Error as PaymentError, Amount, Attempt, no_attempt, normalised, err_declined,
}
use ottodot_trial_booking_se.Payment.Service.{
  Payments, pay as pay_payments, PayCommand as PaymentCommand,
}
use ottodot_trial_booking_se.Queue.Model.{
  Error as QueueError, Kind, expire_hold, reconcile_refund, EnqueueRequest,
}
use ottodot_trial_booking_se.Queue.Memory.{Queue, enqueue}

pub record Checkout : Type 0 where
  pub bookings : Repository
  pub payments : Payments
  pub jobs : Queue

-- The settings without the clock and the minting, and the JSON library: how a booking is written
-- and the test that a text is an object.
pub record Settings : Type 0 where
  pub expiry_grace : Duration
  pub marshal : Text → Option Text
  pub is_object : Text → Bool

-- DefaultSettings
abbrev pub default_grace : Duration
default_grace = seconds 30

unfoldable pub with_defaults : Settings → Settings
with_defaults settings =
    if ltb_ℤ settings.expiry_grace (pos 0)
    then record settings { expiry_grace = pos 0 }
    else settings

pub data ScheduleError : Type 0 where
  no_job_id : Text → ScheduleError
  bad_payload : PayloadError → ScheduleError
  not_enqueued : QueueError → ScheduleError

abbrev pub enqueue_error : Option QueueError → Option ScheduleError
enqueue_error none = none
enqueue_error (some err) = some (not_enqueued err)

-- The request of schedule.
unfoldable pub job_request : Text → Kind → Text → Time → Time → EnqueueRequest
job_request job_id kind payload run_after now = record {
  job_id = job_id;
  kind = kind;
  payload = payload;
  run_after = run_after;
  now = now;
}

unfoldable pub schedule :
    Settings → Queue → Minted → Kind → Text → Time → Time → Queue × Option ScheduleError
schedule settings jobs (mint_failed why) kind booking_id run_after now =
    (jobs, some (no_job_id why))
schedule settings jobs (minted job_id) kind booking_id run_after now =
    let (payload, err) = encode_booking_payload settings.marshal booking_id in
    elim err [
      | some payload_err ↦ (jobs, some (bad_payload payload_err))
      | none ↦
          let (queue, job, queue_err) =
            enqueue settings.is_object jobs (job_request job_id kind payload run_after now) in
          (queue, enqueue_error queue_err)
    ]

pub record HoldResult : Type 0 where
  pub booking : Booking
  pub expiry_scheduled : Bool

abbrev pub no_hold : HoldResult
no_hold = record { booking = no_booking; expiry_scheduled = false }

-- What one call of Hold mints and reads.
pub record HoldReads : Type 0 where
  pub booking_mint : Minted
  pub held_at : Time
  pub event_mint : Minted
  pub job_mint : Minted
  pub enqueued_at : Time

-- Hold, once the booking is granted.
unfoldable pub schedule_expiry :
    Settings → Checkout → HoldReads → Booking → Checkout × HoldResult × Option BookingError
schedule_expiry settings state reads granted =
    let (jobs, err) =
      schedule settings state.jobs reads.job_mint expire_hold granted.id
        (add_time granted.hold_expires_at settings.expiry_grace) reads.enqueued_at in
    (
      record state { jobs = jobs },
      record { booking = granted; expiry_scheduled = not (is_some err) },
      none,
    )

unfoldable pub hold_place :
    Settings
    → Policy
    → Checkout
    → HoldReads
    → HoldCommand
    → Checkout × HoldResult × Option BookingError
hold_place settings policy state reads command =
    let (bookings, granted, err) =
      hold_booking policy state.bookings reads.booking_mint reads.held_at reads.event_mint
        command in
    elim err [
      | some hold_err ↦ (record state { bookings = bookings }, no_hold, some hold_err)
      | none ↦ schedule_expiry settings (record state { bookings = bookings }) reads granted
    ]

pub record PayCommand : Type 0 where
  pub booking_id : Text
  pub amount : Amount
  pub idempotency_key : Text
  pub development : Bool

pub record PayResult : Type 0 where
  pub booking : Booking
  pub attempt : Attempt
  pub refund_scheduled : Bool

abbrev pub no_result : PayResult
no_result = record { booking = no_booking; attempt = no_attempt; refund_scheduled = false }

abbrev pub result_of : Booking → Attempt → PayResult
result_of booking attempt = record {
  booking = booking;
  attempt = attempt;
  refund_scheduled = false;
}

pub data PayError : Type 0 where
  of_payment : PaymentError → PayError
  of_booking : BookingError → PayError

-- What one call of Pay mints and reads.
pub record PayReads : Type 0 where
  pub attempt_mint : Minted
  pub begun_at : Time
  pub settled_at : Time
  pub event_mint : Minted
  pub decided_at : Time
  pub job_mint : Minted
  pub run_at : Time
  pub enqueued_at : Time

unfoldable pub end_on_decline :
    Checkout → PayReads → Text → Attempt → Checkout × PayResult × Option PayError
end_on_decline state reads booking_id attempt =
    let (bookings, row, err) =
      fail_booking state.bookings reads.event_mint booking_id attempt.failure_reason
        reads.decided_at in
    elim err [
      | some fail_err ↦ (
        record state { bookings = bookings },
        result_of no_booking attempt,
        some (of_payment err_declined),
      )
      | none ↦ (
        record state { bookings = bookings },
        result_of row attempt,
        some (of_payment err_declined),
      )
    ]

unfoldable pub queue_refund :
    Settings → Checkout → PayReads → Booking → Attempt → Checkout × PayResult × Option PayError
queue_refund settings state reads lost attempt =
    let (jobs, err) =
      schedule settings state.jobs reads.job_mint reconcile_refund lost.id reads.run_at
        reads.enqueued_at in
    (
      record state { jobs = jobs },
      record { booking = lost; attempt = attempt; refund_scheduled = not (is_some err) },
      some (of_booking err_seat_lost),
    )

abbrev pub is_seat_lost : BookingError → Bool
is_seat_lost err_seat_lost = true
is_seat_lost _ = false

-- Pay, once the money has settled.
unfoldable pub decide_seat :
    Settings → Checkout → PayReads → Text → Attempt → Checkout × PayResult × Option PayError
decide_seat settings state reads booking_id attempt =
    let (bookings, decided, err) =
      confirm_booking state.bookings reads.event_mint booking_id reads.decided_at in
    elim err [
      | none ↦ (record state { bookings = bookings }, result_of decided attempt, none)
      | some confirm_err ↦
          if is_seat_lost confirm_err
          then queue_refund settings (record state { bookings = bookings }) reads decided attempt
          else (
            record state { bookings = bookings },
            result_of decided attempt,
            some (of_booking confirm_err),
          )
    ]

abbrev pub is_decline : PaymentError → Bool
is_decline err_declined = true
is_decline _ = false

unfoldable pub payment_command : PayCommand → PaymentCommand
payment_command command = record {
  booking_id = command.booking_id;
  amount = normalised command.amount;
  idempotency_key = command.idempotency_key;
}

-- Pay, once the payment service has answered.
unfoldable pub after_payment :
    Settings
    → Checkout
    → PayReads
    → Text
    → Attempt
    → Option PaymentError
    → Checkout × PayResult × Option PayError
after_payment settings state reads booking_id attempt none =
    decide_seat settings state reads booking_id attempt
after_payment settings state reads booking_id attempt (some err) =
    if is_decline err
    then end_on_decline state reads booking_id attempt
    else (state, result_of no_booking attempt, some (of_payment err))

unfoldable pub pay :
    Settings → Checkout → PayReads → PayCommand → Checkout × PayResult × Option PayError
pay settings state reads command = elim (accept_amount command.amount command.development) [
  | some err ↦ (state, no_result, some (of_payment err))
  | none ↦
      let (payments, attempt, err) =
        pay_payments state.payments reads.attempt_mint reads.begun_at reads.settled_at
          (payment_command command) in
      after_payment settings (record state { payments = payments }) reads command.booking_id attempt
        err
]
