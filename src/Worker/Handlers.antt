-- ===== src/Worker/Handlers.antt =====
-- backend/internal/worker: reconcile_refund.go and expire_hold.go. The JSON decoding of a payload is
-- a parameter that answers the booking of a payload it accepts. The recorder of refunds is told
-- of a refund and changes nothing here.
use ottodot_trial_booking_se.Prelude.{Option, Text, Time, codes, if◌then◌else◌, none, not, some}
use ottodot_trial_booking_se.Payment.Service.{Payments, refund_booking}
use ottodot_trial_booking_se.Payment.Model.{Error as PaymentError}
use ottodot_trial_booking_se.Identifier.{Minted}
use ottodot_trial_booking_se.Booking.Status.{refund_required, status_eq}
use ottodot_trial_booking_se.Booking.Service.{cancel_booking, expire_booking, read_booking}
use ottodot_trial_booking_se.Booking.Model.{payment}
use ottodot_trial_booking_se.Booking.Memory.Reads.{Repository}
use ottodot_trial_booking_se.Booking.Errors.{Error as BookingError, err_not_holding}

-- The state behind the two services.
pub record System : Type 0 where
  pub bookings : Repository
  pub payments : Payments

pub data HandlerError : Type 0 where
  undecoded : HandlerError
  of_booking : BookingError → HandlerError
  of_payment : PaymentError → HandlerError

abbrev pub refund_reason : Text
refund_reason = codes "refund settled, booking closed by the worker"

-- The end of the handler: the money is back, and the booking is closed.
unfoldable pub close_refunded : System → Minted → Text → Time → System × Option HandlerError
close_refunded state mint booking_id now =
    let (bookings, row, err) =
      cancel_booking state.bookings mint booking_id payment refund_reason now in
    elim err [
      | some cancel_err ↦ (record state { bookings = bookings }, some (of_booking cancel_err))
      | none ↦ (record state { bookings = bookings }, none)
    ]

-- The part of the handler that asks for the refund.
unfoldable pub send_back : System → Minted → Text → Time → Time → System × Option HandlerError
send_back state mint booking_id refunded now =
    let (payments, sent, err) = refund_booking state.payments refunded booking_id in
    elim err [
      | some refund_err ↦ (record state { payments = payments }, some (of_payment refund_err))
      | none ↦ close_refunded (record state { payments = payments }) mint booking_id now
    ]

unfoldable pub handle_refund :
    (Text → Option Text) → System → Minted → Time → Time → Text → System × Option HandlerError
handle_refund decode state mint refunded now payload = elim (decode payload) [
  | none ↦ (state, some undecoded)
  | some booking_id ↦
      let (held, err) = read_booking state.bookings booking_id in
      elim err [
        | some read_err ↦ (state, some (of_booking read_err))
        | none ↦
            if not (status_eq held.status refund_required)
            then (state, none)
            else send_back state mint booking_id refunded now
      ]
]

-- A booking that moved on is work that is done.
abbrev expiry_outcome : Option BookingError → Option HandlerError
expiry_outcome none = none
expiry_outcome (some err_not_holding) = none
expiry_outcome (some err) = some (of_booking err)

unfoldable pub handle_expiry :
    (Text → Option Text) → System → Minted → Time → Text → System × Option HandlerError
handle_expiry decode state mint now payload = elim (decode payload) [
  | none ↦ (state, some undecoded)
  | some booking_id ↦
      let (bookings, row, err) = expire_booking state.bookings mint booking_id now in
      (record state { bookings = bookings }, expiry_outcome err)
]
