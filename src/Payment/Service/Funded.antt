-- ===== src/Payment/Service/Funded.antt =====
-- service.go and refund.go: the charges that a refund can send back.
use ottodot_trial_booking_se.Payment.Service.Rows.{settle_declined-repository}
use ottodot_trial_booking_se.Prelude.{
  All, Text, Time, arith, false, insert-All, is_empty, lookup-All, none, ◌≡◌,
}
use ottodot_trial_booking_se.Payment.Service.Answer.{on_charge}
use ottodot_trial_booking_se.Payment.Model.{
  Amount, Attempt, SettleRequest, normalised, succeeded, validate_amount,
}
use ottodot_trial_booking_se.Identifier.{Minted}
use ottodot_trial_booking_se.Payment.Service.Paid.{on_pay}
use ottodot_trial_booking_se.Payment.Service.{
  after_charge, begin_request, charge_opened, charge_request, settle_succeeded, pay, PayCommand,
  Payments,
}
use ottodot_trial_booking_se.Payment.Memory.{opened_of, settled_of, Repository, settle}
use ottodot_trial_booking_se.Payment.Memory.Keys.{on_settle, Settled}

-- A stored attempt has an amount that can be charged, and a reference once it has succeeded.
abbrev pub Funded : Text × Attempt → Type 0
Funded (key, stored) =
    (validate_amount stored.amount ≡ none)
    × (stored.status ≡ succeeded → is_empty stored.provider_ref ≡ false)

abbrev pub IsFunded : Repository → Type 0
IsFunded repository = All Funded repository.attempts

settle-IsFunded :
    (repository : Repository) (request : SettleRequest)
    → (request.status ≡ succeeded → is_empty request.provider_ref ≡ false)
    → IsFunded repository
    → IsFunded (settle repository request).0
unfolding settled_of
settle-IsFunded repository request named v =
    on_settle repository request (λ (r : Settled). IsFunded r.0) (λ a err. v)
      λ stored found unset.
        insert-All Funded stored.id (settled_of stored request) repository.attempts v
          ((lookup-All Funded request.attempt_id stored repository.attempts v found).0, named)

charge_opened-IsFunded :
    (payments : Payments) (opened : Attempt) (later : Time)
    → IsFunded payments.repository
    → IsFunded (charge_opened payments opened later).0.repository
unfolding charge_opened settle_succeeded
charge_opened-IsFunded payments opened later v =
    on_charge (λ r. IsFunded (after_charge payments opened later r).0.repository)
      (charge_request opened) (λ provider result err. v)
      (λ provider result d.
        rw (d, settle_declined-repository)
          (settle-IsFunded payments.repository _ (λ e. absurd (ground arith)) v))
      (λ provider result d n. rw d (settle-IsFunded payments.repository _ (λ e. n) v))
      payments.provider

validate_amount-normalised :
    (amount : Amount) → validate_amount amount ≡ none → validate_amount (normalised amount) ≡ none
unfolding validate_amount normalised
validate_amount-normalised amount v = ground arith

pub pay-IsFunded :
    (payments : Payments) (mint : Minted) (now later : Time) (command : PayCommand)
    → IsFunded payments.repository
    → IsFunded (pay payments mint now later command).0.repository
unfolding opened_of begin_request
pay-IsFunded payments mint now later command v =
    on_pay payments mint now later command (λ r. IsFunded r.0.repository) (λ err. v)
      (λ stored e t. v)
      λ id a. charge_opened-IsFunded _ _ later (
        insert-All Funded id _ payments.repository.attempts v
          (validate_amount-normalised command.amount a, (λ e. absurd (ground arith))))
