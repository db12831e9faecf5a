-- ===== src/Payment/Service/Twice.antt =====
-- service.go: two calls of Pay with one key.
use ottodot_trial_booking_se.Payment.Provider.{MockProvider}
use ottodot_trial_booking_se.Payment.Memory.Once.{settled_for_good}
use ottodot_trial_booking_se.Payment.Service.Rows.{pay-IsKept, run-bookings}
use ottodot_trial_booking_se.Prelude.{
  List, Bool-cases, Option-cases, Text, Time, arith, false, inl, inr, is_empty, lookup, none, refl,
  true, ◌≡◌,
}
use ottodot_trial_booking_se.Payment.Service.Replay.{pay-replays, IsPayable}
use ottodot_trial_booking_se.Payment.Service.Answer.{Final, charge_opened-Final}
use ottodot_trial_booking_se.Payment.Service.{
  after_begin, PayCommand, Payments, begin_request, pay, replay_of,
}
use ottodot_trial_booking_se.Payment.Model.{is_settled, validate_amount, validate_idempotency_key}
use ottodot_trial_booking_se.Payment.Memory.Laws.{IsKept}
use ottodot_trial_booking_se.Payment.Memory.Keys.{AllFresh, Call, run, on_begin}
use ottodot_trial_booking_se.Identifier.{minted}

-- The state of the service after calls of the repository by others, and with the provider in any
-- state that they, their charges and what was armed at it have brought it to.
abbrev pub meanwhile : Payments → List Call → MockProvider → Payments
meanwhile payments calls provider = record {
  repository = run payments.repository calls;
  provider = provider;
}

-- Where Pay answers a settled attempt, the repository holds that answer for the key.
pub pay-Final :
    (payments : Payments) (id : Text) (now later : Time) (command : PayCommand)
    → IsKept payments.repository
    → lookup id payments.repository.attempts ≡ none
    → is_empty id ≡ false
    → is_settled (pay payments (minted id) now later command).1.status ≡ true
    → IsPayable command × Final command (pay payments (minted id) now later command)
unfolding pay is_settled begin_request replay_of
pay-Final payments id now later command v fresh named =
    elim (Bool-cases (is_empty command.booking_id)) [
      | inl t ↦ rw (t, pay) (λ s. ground arith)
      | inr t ↦
          rw (t, pay)
            (elim (Option-cases (validate_amount command.amount)) [
              | inr (err, a) ↦ rw (a, pay) (λ s. ground arith)
              | inl a ↦
                  rw (a, pay)
                    (elim (Option-cases (validate_idempotency_key command.idempotency_key)) [
                      | inr (err, k) ↦ rw (k, pay) (λ s. ground arith)
                      | inl k ↦
                          rw (k, pay)
                            (λ s. (
                              record { booked = t; charged = a; key = k },
                              on_begin payments.repository (begin_request id command now)
                                  (λ r. Final command (after_begin payments r later))
                                  (λ err s. ground arith)
                                  (λ stored b e t s.
                                    (record { named = e; same = t; final = s; known = b }, refl))
                                  (λ b e.
                                    charge_opened-Final payments.repository id now command v fresh b
                                      e payments.provider later named),
                            ))
                    ])
            ])
    ]

-- Where a first Pay answers a settled attempt, the same command again gets the same attempt and the
-- same error, at any later instant, with any identifier that is not empty, after any begins and
-- settles of others in between, and whatever state the provider is in by then: the second call changes
-- nothing, so the provider is not asked to charge again. The conditions: the rows of the repository
-- stand under their identifiers, the first call is one step, and the identifiers that it and the
-- others mint are new, its own not empty.
pub pay_twice :
    (payments : Payments) (id again : Text) (now later now' later' : Time) (command : PayCommand)
    (calls : List Call) (provider : MockProvider)
    → IsKept payments.repository
    → lookup id payments.repository.attempts ≡ none
    → is_empty id ≡ false
    → is_empty again ≡ false
    → is_settled (pay payments (minted id) now later command).1.status ≡ true
    → AllFresh (pay payments (minted id) now later command).0.repository calls
    → pay
        (meanwhile (pay payments (minted id) now later command).0 calls provider)
        (minted again)
        now'
        later'
        command
      ≡ (
        meanwhile (pay payments (minted id) now later command).0 calls provider,
        (pay payments (minted id) now later command).1,
        (pay payments (minted id) now later command).2,
      )
pay_twice payments id again now later now' later' command calls provider v fresh named named' s f =
    let (payable, final) = pay-Final payments id now later command v fresh named s in
    let (answered, told) = final s in
    rw⁻¹ told (
      pay-replays _ again now' later' command _ payable
        (record {
          named =
              settled_for_good _ calls command.booking_id command.idempotency_key _
                (pay-IsKept payments (minted id) now later command v) f answered.named s;
          same = answered.same;
          final = s;
          known = rw (run-bookings) answered.known;
        })
        named')
