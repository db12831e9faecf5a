-- ===== src/Checkout/Paid.antt =====
-- pay.go: what the answers of Pay say of the money, the seat and the queue.
use ottodot_trial_booking_se.Payment.Service.Paid.{pay-Succeeds}
use ottodot_trial_booking_se.Prelude.{
  ◌≢◌, Bool-cases, Option-cases, Text, Time, false, inl, inr, is_empty, lookup, none, refl, some,
  true, ◌≡◌,
}
use ottodot_trial_booking_se.Identifier.{Minted}
use ottodot_trial_booking_se.Booking.Status.{confirmed}
use ottodot_trial_booking_se.Booking.Service.{confirm_booking, fail_booking}
use ottodot_trial_booking_se.Booking.Memory.Invariant.{IsSound}
use ottodot_trial_booking_se.Checkout.Service.{
  Settings, Checkout, PayReads, PayCommand, pay, of_payment, payment_command, queue_refund,
  end_on_decline,
}
use ottodot_trial_booking_se.Checkout.Cases.{Ended, on_pay, on_decide, paying, paid_state}
use ottodot_trial_booking_se.Checkout.Price.{trial_price, accept_amount-price}
use ottodot_trial_booking_se.Payment.Model.{
  normalised, same_as, succeeded, Error as PaymentError, Attempt, err_declined,
}
use ottodot_trial_booking_se.Booking.Memory.Decided.{Decided, confirm-Decided}
use ottodot_trial_booking_se.Booking.Memory.Reads.{Repository}

pub confirm_booking-Decided :
    (repository : Repository) (mint : Minted) (booking_id : Text) (now : Time)
    → IsSound repository
    → Decided booking_id (confirm_booking repository mint booking_id now)
unfolding confirm_booking
confirm_booking-Decided repository mint booking_id now v = elim (Bool-cases (is_empty booking_id)) [
  | inl t ↦ rw (t, confirm_booking) ((λ e. absurd cc), (λ e. absurd cc))
  | inr t ↦
      rw (t, confirm_booking)
        (confirm-Decided repository mint (record { booking_id = booking_id; now = now }) v)
]

pub end_on_decline-err :
    (state : Checkout) (reads : PayReads) (booking_id : Text) (attempt : Attempt)
    → (end_on_decline state reads booking_id attempt).2 ≡ some (of_payment err_declined)
unfolding end_on_decline
end_on_decline-err state reads booking_id attempt =
    let failing =
      fail_booking state.bookings reads.event_mint booking_id attempt.failure_reason
        reads.decided_at in
    elim (Option-cases failing.2) [
      | inl e ↦ rw (e, end_on_decline) refl
      | inr (err, e) ↦ rw (e, end_on_decline) refl
    ]

-- A seat that was paid for: the row and the charge that the answer shows.
abbrev pub IsPaidSeat : PayCommand → Ended → Type 0
IsPaidSeat command ended =
    (lookup command.booking_id ended.0.bookings.bookings ≡ some ended.1.booking)
    × (ended.1.booking.status ≡ confirmed)
    × (ended.1.attempt.status ≡ succeeded)
    × (same_as ended.1.attempt.amount (normalised command.amount) ≡ true)

-- From a sound booking repository, a Pay that answers without an error leaves the booking stored as
-- confirmed and answers with it and with a succeeded charge of the amount that was asked for; where
-- the call is not one of development, that amount is the price of a trial class.
pub confirmed_was_paid :
    (settings : Settings) (state : Checkout) (reads : PayReads) (command : PayCommand)
    → IsSound state.bookings
    → (pay settings state reads command).2 ≡ none
    → IsPaidSeat command (pay settings state reads command)
      × (command.development ≡ false → normalised command.amount ≡ trial_price)
confirmed_was_paid settings state reads command v =
    on_pay settings state reads command
      (λ ended.
        ended.2 ≡ none
        → IsPaidSeat command ended
          × (command.development ≡ false → normalised command.amount ≡ trial_price))
      (λ err a e. absurd cc)
      (λ d e.
        let told =
          end_on_decline-err (paid_state state reads command) reads command.booking_id
            (paying state reads command).1 in
        absurd cc)
      (λ err n f e. absurd cc)
      λ accepted ok.
        on_decide settings (paid_state state reads command) reads
          (λ ended.
            ended.2 ≡ none
            → IsPaidSeat command ended
              × (command.development ≡ false → normalised command.amount ≡ trial_price))
          command.booking_id (paying state reads command).1
          (λ won e.
            let seat =
              (confirm_booking-Decided state.bookings reads.event_mint command.booking_id
                  reads.decided_at v).0
                won in
            let money =
              pay-Succeeds state.payments reads.attempt_mint reads.begun_at reads.settled_at
                (payment_command command) ok in
            (
              (seat.0, seat.2, money.0, unfold payment_command in money.1),
              (λ local. (accept_amount-price command.amount).0 (rw local at accepted)),
            ))
          (λ lost. unfold queue_refund in (λ e. absurd cc)) λ err n undone e. absurd cc

-- Where Pay answers with an error of the payment other than a decline, the bookings and the jobs are
-- as they were: an amount that is refused, a malformed key, an unfinished replay or a provider that
-- cannot be reached writes nothing about the booking.
pub payment_error-unchanged :
    (settings : Settings) (state : Checkout) (reads : PayReads) (command : PayCommand)
    (err : PaymentError)
    → (pay settings state reads command).2 ≡ some (of_payment err)
    → err ≢ err_declined
    → ((pay settings state reads command).0.bookings ≡ state.bookings)
      × ((pay settings state reads command).0.jobs ≡ state.jobs)
payment_error-unchanged settings state reads command err =
    on_pay settings state reads command
      (λ ended.
        ended.2 ≡ some (of_payment err)
        → err ≢ err_declined
        → (ended.0.bookings ≡ state.bookings) × (ended.0.jobs ≡ state.jobs))
      (λ _ a e n. (refl, refl))
      (λ d e n.
        let told =
          end_on_decline-err (paid_state state reads command) reads command.booking_id
            (paying state reads command).1 in
        absurd (n cc))
      (λ _ m f e n. (refl, refl))
      λ accepted ok.
        on_decide settings (paid_state state reads command) reads
          (λ ended.
            ended.2 ≡ some (of_payment err)
            → err ≢ err_declined
            → (ended.0.bookings ≡ state.bookings) × (ended.0.jobs ≡ state.jobs))
          command.booking_id (paying state reads command).1 (λ won e n. absurd cc)
          (λ lost. unfold queue_refund in (λ e n. absurd cc)) λ other m undone e n. absurd cc
