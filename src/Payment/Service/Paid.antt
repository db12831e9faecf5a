-- ===== src/Payment/Service/Paid.antt =====
-- service.go: what a Pay that answers without an error leaves in the repository.
use ottodot_trial_booking_se.Payment.Service.Replay.{same_as-normalised}
use ottodot_trial_booking_se.Prelude.{
  arith, lookup-insert_self, Bool-cases, Option, Option-cases, Text, Time, [], inl, inr, is_empty,
  lookup, none, refl, some, some-injective, subst, sym, true, ◌∙◌, ◌≡◌, ◌≢◌,
}
use ottodot_trial_booking_se.Payment.Provider.{ChargeResult}
use ottodot_trial_booking_se.Payment.Model.{
  Attempt, Error, failed, foreign, no_attempt, same_as, succeeded, validate_amount,
  validate_idempotency_key,
}
use ottodot_trial_booking_se.Payment.Memory.{begin, by_key, opened_of, settle, settled_of}
use ottodot_trial_booking_se.Identifier.{Minted, mint_failed, minted}
use ottodot_trial_booking_se.Payment.Service.{
  pay, PayCommand, Payments, begin_request, charge_opened, after_begin, settle_declined,
  settle_succeeded, after_charge, charge_request, replay_of,
}
use ottodot_trial_booking_se.Payment.Memory.Keys.{on_begin, on_settle, opened_in, Settled}
use ottodot_trial_booking_se.Payment.Service.Answer.{on_charge}

abbrev pub Answered : Type 0
Answered = Payments × Attempt × Option Error

-- The three ways in which Pay ends.
module _ (payments : Payments) (mint : Minted) (now later : Time) (command : PayCommand)
    (P : Answered → Type 0) (refused : (err : Error) → P (payments, no_attempt, some err))
    (replays : (stored : Attempt)
      → by_key payments.repository command.booking_id command.idempotency_key ≡ some stored
      → same_as stored.amount command.amount ≡ true
      → P (payments, (replay_of stored).0, (replay_of stored).1))
    (charges : (id : Text)
      → validate_amount command.amount ≡ none
      → P (
          charge_opened
            (record payments {
              repository = opened_in payments.repository (opened_of (begin_request id command now));
            })
            (opened_of (begin_request id command now))
            later)) where
  pub on_pay : P (pay payments mint now later command)
  unfolding pay begin_request
  on_pay = elim (Bool-cases (is_empty command.booking_id)) [
    | inl t ↦ rw (t, pay) (refused _)
    | inr t ↦
        rw (t, pay)
          (elim (Option-cases (validate_amount command.amount)) [
            | inr (err, a) ↦ rw (a, pay) (refused _)
            | inl a ↦
                rw (a, pay)
                  (elim (Option-cases (validate_idempotency_key command.idempotency_key)) [
                    | inr (err, k) ↦ rw (k, pay) (refused _)
                    | inl k ↦ rw (k, pay) (begun a mint)
                  ])
          ])
  ]
    where
      begun :
          validate_amount command.amount ≡ none
          → (m : Minted)
          → P (elim m as (λ _. Payments × Attempt × Option Error) [
            | mint_failed why ↦ (payments, no_attempt, some (foreign why))
            | minted attempt_id ↦
                after_begin payments
                  (begin payments.repository (begin_request attempt_id command now))
                  later
          ])
      begun a (mint_failed why) = refused _
      begun a (minted id) =
          on_begin payments.repository (begin_request id command now)
            (λ r. P (after_begin payments r later)) (λ err. refused err)
            (λ stored b e t. replays stored e t) (λ b e. charges id a)

-- The answer of a Pay without an error is a settled charge of the amount that was asked for.
abbrev pub Succeeds : PayCommand → Answered → Type 0
Succeeds command result =
    result.2 ≡ none
    → (result.1.status ≡ succeeded) × (same_as result.1.amount command.amount ≡ true)

settle_declined-fails :
    (payments : Payments) (opened : Attempt) (result : ChargeResult) (now : Time)
    → (settle_declined payments opened result now).2 ≢ none
unfolding settle_declined
settle_declined-fails payments opened result now =
    let answer = settle payments.repository (record {
      attempt_id = opened.id;
      status = failed;
      provider_ref = [];
      failure_reason = result.failure_reason;
      now = now;
    }) in
    elim (Option-cases answer.2) [
      | inl e ↦ rw (e, settle_declined) (λ k. cc)
      | inr (err, e) ↦ rw (e, settle_declined) (λ k. cc)
    ]

settle_succeeded-Succeeds :
    (payments : Payments) (opened : Attempt) (result : ChargeResult) (now : Time)
    (command : PayCommand)
    → lookup opened.id payments.repository.attempts ≡ some opened
    → same_as opened.amount command.amount ≡ true
    → Succeeds command (settle_succeeded payments opened result now)
unfolding settle_succeeded settled_of
settle_succeeded-Succeeds payments opened result now command there same =
    on_settle payments.repository
      (record {
        attempt_id = opened.id;
        status = succeeded;
        provider_ref = result.provider_ref;
        failure_reason = [];
        now = now;
      })
      (λ (r : Settled).
        r.2 ≡ none → (r.1.status ≡ succeeded) × (same_as r.1.amount command.amount ≡ true))
      (λ a err k. absurd cc)
      λ stored found unset k.
        let here : opened ≡ stored = some-injective opened stored (sym there ∙ found) in
        (refl, subst (λ a. same_as a.amount command.amount ≡ true) here same)

charge_opened-Succeeds :
    (payments : Payments) (opened : Attempt) (later : Time) (command : PayCommand)
    → lookup opened.id payments.repository.attempts ≡ some opened
    → same_as opened.amount command.amount ≡ true
    → Succeeds command (charge_opened payments opened later)
unfolding charge_opened
charge_opened-Succeeds payments opened later command there same =
    on_charge (λ r. Succeeds command (after_charge payments opened later r)) (charge_request opened)
      (λ provider result err k. absurd cc)
      (λ provider result d. rw d (λ k.
        absurd
          (settle_declined-fails (record payments { provider = provider }) opened result later k)))
      (λ provider result d n. rw d (
        settle_succeeded-Succeeds (record payments { provider = provider }) opened result later
          command there same))
      payments.provider

pub pay-Succeeds :
    (payments : Payments) (mint : Minted) (now later : Time) (command : PayCommand)
    → Succeeds command (pay payments mint now later command)
unfolding replay_of
pay-Succeeds payments mint now later command =
    on_pay payments mint now later command (Succeeds command) (λ err k. absurd cc)
      (λ stored e same k. (ground arith, same))
      λ id a.
        charge_opened-Succeeds
          (record payments {
            repository = opened_in payments.repository (opened_of (begin_request id command now));
          })
          (opened_of (begin_request id command now)) later command
          (lookup-insert_self _ _ payments.repository.attempts)
          (unfold opened_of begin_request in same_as-normalised command.amount)
