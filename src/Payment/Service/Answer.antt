-- ===== src/Payment/Service/Answer.antt =====
-- service.go: the answer that a first Pay leaves in the repository.
use ottodot_trial_booking_se.Payment.Service.Replay.{
  IsAnswered, same_as-normalised, walk_keys-append_none,
}
use ottodot_trial_booking_se.Payment.Memory.Laws.{
  open-IsKept, walk_keys-insert_new, walk_keys-insert_old, IsKept,
}
use ottodot_trial_booking_se.Payment.Memory.Keys.{opened_in}
use ottodot_trial_booking_se.Prelude.{
  Option, Option-cases, suc, ◌||◌, lookup_or-insert_self, ◌∙◌, Bool-cases, inl, inr, insert,
  lookup-insert_self, text_eq_refl, Text, Time, [], arith, false, is_empty, lookup, none, refl,
  some, true, ◌∷◌, ◌≡◌,
}
use ottodot_trial_booking_se.Payment.Service.{
  after_charge, is_declined, charge_opened, charge_request, settle_declined, settle_succeeded,
  PayCommand, Payments, begin_request, replay_of,
}
use ottodot_trial_booking_se.Payment.Provider.{
  ChargeRequest, ChargeResult, MockProvider, Outcome, charge, declined, other_outcome, outcome_of,
  provider_error, settled, answer,
}
use ottodot_trial_booking_se.Payment.Model.{
  err_declined, failed, succeeded, Error, SettleRequest, validate_settle, Attempt, is_settled,
  normalised, validate_amount,
}
use ottodot_trial_booking_se.Payment.Memory.{
  opened_of, settle, settled_of, Repository, by_key, walk_keys,
}

abbrev Charged : Type 0
Charged = MockProvider × ChargeResult × Option Error

-- The three ways in which a charge ends.
module _ (P : Charged → Type 0) (request : ChargeRequest)
    (refused : (provider : MockProvider) (result : ChargeResult) (err : Error)
      → P (provider, result, some err))
    (declines : (provider : MockProvider) (result : ChargeResult)
      → is_declined result.outcome ≡ true
      → P (provider, result, none))
    (settles : (provider : MockProvider) (result : ChargeResult)
      → is_declined result.outcome ≡ false
      → is_empty result.provider_ref ≡ false
      → P (provider, result, none)) where
  on_answer :
      (provider : MockProvider) (outcome : Outcome)
      → P (provider, (answer outcome request).0, (answer outcome request).1)
  unfolding answer
  on_answer provider settled = settles provider _ refl refl
  on_answer provider declined = declines provider _ refl
  on_answer provider provider_error = refused provider _ _
  on_answer provider (other_outcome s) = settles provider _ refl refl

  pub on_charge : (provider : MockProvider) → P (charge provider request)
  unfolding charge
  on_charge provider =
      elim (Bool-cases (is_empty request.attempt_id || is_empty request.reference)) [
        | inl t ↦ rw (t, charge) (refused _ _ _)
        | inr t ↦
            rw (t, charge)
              (elim (Option-cases (validate_amount request.amount)) [
                | inr (err, a) ↦ rw (a, charge) (refused _ _ _)
                | inl a ↦
                    rw (a, charge)
                      (on_answer (record provider { charges = suc provider.charges })
                        (outcome_of provider request))
              ])
      ]

-- Where the answer of Pay is final, the repository holds it.
abbrev pub Final : PayCommand → Payments × Attempt × Option Error → Type 0
Final command result =
    is_settled result.1.status ≡ true
    → IsAnswered result.0.repository command result.1 × ((replay_of result.1).1 ≡ result.2)

-- The attempt that begin opened, and the write that settles it.
module _ (repository : Repository) (id : Text) (now : Time) (command : PayCommand)
    (v : IsKept repository) (fresh : lookup id repository.attempts ≡ none)
    (known : lookup command.booking_id repository.bookings ≡ some tt)
    (free : by_key repository command.booking_id command.idempotency_key ≡ none) where
  abbrev row : Attempt
  row = opened_of (begin_request id command now)

  abbrev opened : Repository
  opened = opened_in repository row

  abbrev closed : SettleRequest → Repository
  closed request = record opened { attempts = insert id (settled_of row request) opened.attempts }

  settle-opened :
      (request : SettleRequest)
      → validate_settle request ≡ none
      → request.attempt_id ≡ id
      → settle opened request ≡ (closed request, settled_of row request, none)
  unfolding settle opened_of begin_request settled_of is_settled
  settle-opened request k e =
      let there : lookup request.attempt_id opened.attempts ≡ some row =
        simp (e, lookup-insert_self) in
      rw (k, there, settle) refl

  by_key-opened : by_key opened command.booking_id command.idempotency_key ≡ some row
  unfolding by_key opened_of begin_request walk_keys
  by_key-opened =
      walk_keys-append_none opened.attempts command.booking_id command.idempotency_key
        repository.order (id ∷ [])
        (walk_keys-insert_new repository.attempts command.booking_id command.idempotency_key id row
            repository.order fresh v.rows
          ∙ free)
      ∙ simp (lookup_or-insert_self, text_eq_refl)

  settle-IsAnswered :
      (request : SettleRequest)
      → is_settled request.status ≡ true
      → IsAnswered (closed request) command (settled_of row request)
  unfolding by_key settled_of opened_of begin_request
  settle-IsAnswered request s = record {
    named =
        walk_keys-insert_old opened.attempts command.booking_id command.idempotency_key row
          (settled_of row request) opened.order row (lookup-insert_self id row repository.attempts)
          refl refl (open-IsKept repository row v).rows by_key-opened
        ∙ simp (text_eq_refl);
    same = same_as-normalised command.amount;
    final = s;
    known = known;
  }

  abbrev with_provider : MockProvider → Payments
  with_provider provider = record { repository = opened; provider = provider }

  settle_declined-Final :
      (provider : MockProvider) (result : ChargeResult) (later : Time)
      → is_empty id ≡ false
      → Final command (settle_declined (with_provider provider) row result later)
  unfolding settle_declined validate_settle opened_of begin_request settled_of is_settled replay_of
      settle insert normalised
  settle_declined-Final provider result later n =
      let request : SettleRequest = record {
        attempt_id = id;
        status = failed;
        provider_ref = [];
        failure_reason = result.failure_reason;
        now = later;
      } in
      let valid : validate_settle request ≡ none = simp (n) in
      let written : settle_declined (with_provider provider) row result later ≡ (
        record { repository = closed request; provider = provider },
        settled_of row request,
        some err_declined,
      ) =
        simp (settle-opened request valid refl) in
      rw written λ s. (settle-IsAnswered request refl, refl)

  settle_succeeded-Final :
      (provider : MockProvider) (result : ChargeResult) (later : Time)
      → is_empty id ≡ false
      → is_empty result.provider_ref ≡ false
      → Final command (settle_succeeded (with_provider provider) row result later)
  unfolding settle_succeeded validate_settle opened_of begin_request settled_of is_settled replay_of
  settle_succeeded-Final provider result later n r =
      let request : SettleRequest = record {
        attempt_id = id;
        status = succeeded;
        provider_ref = result.provider_ref;
        failure_reason = [];
        now = later;
      } in
      let valid : validate_settle request ≡ none = simp (n, r) in
      rw (settle-opened request valid refl, settle_succeeded)
        λ s. (settle-IsAnswered request refl, refl)

  pub charge_opened-Final :
      (provider : MockProvider) (later : Time)
      → is_empty id ≡ false
      → Final command (charge_opened (with_provider provider) row later)
  unfolding charge_opened opened_of is_settled
  charge_opened-Final provider later named =
      on_charge (λ r. Final command (after_charge (with_provider provider) row later r))
        (charge_request row) (λ provider result err s. ground arith)
        (λ provider result d. rw d (settle_declined-Final provider result later named))
        (λ provider result d n. rw d (settle_succeeded-Final provider result later named n))
        provider
