-- ===== src/Checkout/Cases.antt =====
-- pay.go: the ways in which Pay ends.
use ottodot_trial_booking_se.Prelude.{
  Bool-cases, Option, Option-cases, Text, arith, false, inl, inr, none, some, true, ◌≡◌,
}
use ottodot_trial_booking_se.Booking.Service.{confirm_booking}
use ottodot_trial_booking_se.Booking.Model.{no_booking}
use ottodot_trial_booking_se.Checkout.Service.{
  Settings, Checkout, PayReads, PayCommand, PayResult, PayError, pay, decide_seat, end_on_decline,
  queue_refund, after_payment, payment_command, no_result, result_of, is_decline, is_seat_lost,
  of_payment, of_booking,
}
use ottodot_trial_booking_se.Checkout.Price.{accept_amount}
use ottodot_trial_booking_se.Payment.Service.{pay as pay_payments}
use ottodot_trial_booking_se.Payment.Service.Paid.{Answered}
use ottodot_trial_booking_se.Payment.Model.{Error as PaymentError, Attempt, err_declined}
use ottodot_trial_booking_se.Booking.Errors.{Error as BookingError, err_seat_lost}
use ottodot_trial_booking_se.Booking.Memory.Cases.{Outcome}

abbrev pub Ended : Type 0
Ended = Checkout × PayResult × Option PayError

seat_lost : (err : BookingError) → is_seat_lost err ≡ true → err ≡ err_seat_lost
seat_lost err e = ground arith

declined_only : (err : PaymentError) → is_decline err ≡ true → err ≡ err_declined
declined_only err e = ground arith

module _ (state : Checkout) (reads : PayReads) where
  -- What the confirm of the call answers.
  abbrev pub confirming : Text → Outcome
  confirming booking_id =
      confirm_booking state.bookings reads.event_mint booking_id reads.decided_at

  abbrev pub confirmed_state : Text → Checkout
  confirmed_state booking_id = record state { bookings = (confirming booking_id).0 }

  -- What the payment service answers to the call.
  abbrev pub paying : PayCommand → Answered
  paying command =
      pay_payments state.payments reads.attempt_mint reads.begun_at reads.settled_at
        (payment_command command)

  abbrev pub paid_state : PayCommand → Checkout
  paid_state command = record state { payments = (paying command).0 }

module _ (settings : Settings) (state : Checkout) (reads : PayReads) (P : Ended → Type 0) where
  pub on_decide :
      (booking_id : Text) (attempt : Attempt)
      → ((confirming state reads booking_id).2 ≡ none
          → P (
            confirmed_state state reads booking_id,
            result_of (confirming state reads booking_id).1 attempt,
            none,
          ))
      → ((confirming state reads booking_id).2 ≡ some err_seat_lost
          → P (
              queue_refund settings
                (confirmed_state state reads booking_id)
                reads
                (confirming state reads booking_id).1
                attempt))
      → ((err : BookingError)
          → is_seat_lost err ≡ false
          → (confirming state reads booking_id).2 ≡ some err
          → P (
            confirmed_state state reads booking_id,
            result_of (confirming state reads booking_id).1 attempt,
            some (of_booking err),
          ))
      → P (decide_seat settings state reads booking_id attempt)
  unfolding decide_seat
  on_decide booking_id attempt won lost undone =
      elim (Option-cases (confirming state reads booking_id).2) [
        | inl e ↦ rw (e, decide_seat) (won e)
        | inr (err, e) ↦
            rw (e, decide_seat)
              (elim (Bool-cases (is_seat_lost err)) [
                | inl t ↦ rw t (lost (rw (seat_lost err t) at e))
                | inr t ↦ rw t (undone err t e)
              ])
      ]

module _ (settings : Settings) (state : Checkout) (reads : PayReads) (command : PayCommand)
    (P : Ended → Type 0) where
  pub on_pay :
      ((err : PaymentError)
        → accept_amount command.amount command.development ≡ some err
        → P (state, no_result, some (of_payment err)))
      → ((paying state reads command).2 ≡ some err_declined
          → P (
              end_on_decline
                (paid_state state reads command)
                reads
                command.booking_id
                (paying state reads command).1))
      → ((err : PaymentError)
          → is_decline err ≡ false
          → (paying state reads command).2 ≡ some err
          → P (
            (paid_state state reads command),
            result_of no_booking (paying state reads command).1,
            some (of_payment err),
          ))
      → (accept_amount command.amount command.development ≡ none
          → (paying state reads command).2 ≡ none
          → P (
              decide_seat settings
                (paid_state state reads command)
                reads
                command.booking_id
                (paying state reads command).1))
      → P (pay settings state reads command)
  unfolding pay after_payment
  on_pay refuses declines errs decides =
      elim (Option-cases (accept_amount command.amount command.development)) [
        | inr (err, a) ↦ rw (a, pay) (refuses err a)
        | inl a ↦
            rw (a, pay)
              (elim (Option-cases (paying state reads command).2) [
                | inl e ↦ rw (e, after_payment) (decides a e)
                | inr (err, e) ↦
                    rw (e, after_payment)
                      (elim (Bool-cases (is_decline err)) [
                        | inl t ↦ rw t (declines (rw (declined_only err t) at e))
                        | inr t ↦ rw t (errs err t e)
                      ])
              ])
      ]
