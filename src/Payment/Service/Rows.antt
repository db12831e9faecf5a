-- ===== src/Payment/Service/Rows.antt =====
-- service.go: Pay writes through begin and settle alone.
use ottodot_trial_booking_se.Prelude.{
  Bool-cases, List, Option-cases, Time, [], arith, inl, inr, is_empty, refl, ◌∙◌, ◌∷◌, ◌≡◌,
}
use ottodot_trial_booking_se.Payment.Service.Answer.{on_charge}
use ottodot_trial_booking_se.Payment.Service.{
  after_charge, after_begin, PayCommand, Payments, begin_request, charge_opened, charge_request,
  pay, settle_declined, settle_succeeded,
}
use ottodot_trial_booking_se.Payment.Provider.{ChargeResult}
use ottodot_trial_booking_se.Payment.Model.{
  Attempt, failed, validate_amount, validate_idempotency_key,
}
use ottodot_trial_booking_se.Payment.Memory.Once.{step-IsKept}
use ottodot_trial_booking_se.Payment.Memory.Laws.{IsKept, open-IsKept}
use ottodot_trial_booking_se.Payment.Memory.Keys.{
  Call, begins, on_begin, on_settle, run, settles, step,
}
use ottodot_trial_booking_se.Payment.Memory.{Repository, begin, settle}
use ottodot_trial_booking_se.Identifier.{Minted, mint_failed, minted}

pub settle_declined-repository :
    (payments : Payments) (opened : Attempt) (result : ChargeResult) (now : Time)
    → (settle_declined payments opened result now).0.repository
      ≡ (settle payments.repository (record {
        attempt_id = opened.id;
        status = failed;
        provider_ref = [];
        failure_reason = result.failure_reason;
        now = now;
      })).0
unfolding settle_declined
settle_declined-repository payments opened result now =
    let answer = settle payments.repository (record {
      attempt_id = opened.id;
      status = failed;
      provider_ref = [];
      failure_reason = result.failure_reason;
      now = now;
    }) in
    elim (Option-cases answer.2) [
      | inl e ↦ rw (e, settle_declined) refl
      | inr (err, e) ↦ rw (e, settle_declined) refl
    ]

charge_opened-IsKept :
    (payments : Payments) (opened : Attempt) (later : Time)
    → IsKept payments.repository
    → IsKept (charge_opened payments opened later).0.repository
unfolding charge_opened settle_succeeded step
charge_opened-IsKept payments opened later v =
    on_charge (λ r. IsKept (after_charge payments opened later r).0.repository)
      (charge_request opened) (λ provider result err. v)
      (λ provider result d.
        rw (d, settle_declined-repository) (step-IsKept payments.repository (settles _) v))
      (λ provider result d n. rw d (step-IsKept payments.repository (settles _) v))
      payments.provider

pub pay-IsKept :
    (payments : Payments) (mint : Minted) (now later : Time) (command : PayCommand)
    → IsKept payments.repository
    → IsKept (pay payments mint now later command).0.repository
unfolding pay
pay-IsKept payments (mint_failed why) now later command v = ground arith
pay-IsKept payments (minted id) now later command v =
    elim (Bool-cases (is_empty command.booking_id)) [
      | inl t ↦ rw (t, pay) v
      | inr t ↦
          rw (t, pay)
            (elim (Option-cases (validate_amount command.amount)) [
              | inr (err, a) ↦ rw (a, pay) v
              | inl a ↦
                  rw (a, pay)
                    (elim (Option-cases (validate_idempotency_key command.idempotency_key)) [
                      | inr (err, k) ↦ rw (k, pay) v
                      | inl k ↦
                          rw (k, pay)
                            (on_begin payments.repository (begin_request id command now)
                              (λ r. IsKept (after_begin payments r later).0.repository) (λ err. v)
                              (λ stored b e t. v)
                              (λ b e.
                                charge_opened-IsKept _ _ later
                                  (open-IsKept payments.repository _ v)))
                    ])
            ])
    ]

-- Nobody removes a booking.
pub run-bookings :
    (repository : Repository) (calls : List Call)
    → (run repository calls).bookings ≡ repository.bookings
unfolding run step
run-bookings repository [] = refl
run-bookings repository (begins request ∷ calls) =
    run-bookings (begin repository request).0 calls
    ∙ on_begin repository request (λ r. r.0.bookings ≡ repository.bookings) (λ err. refl)
        (λ stored b e t. refl) (λ b e. refl)
run-bookings repository (settles request ∷ calls) =
    run-bookings (settle repository request).0 calls
    ∙ on_settle repository request (λ r. r.0.bookings ≡ repository.bookings) (λ a err. refl)
        (λ stored e t. refl)
