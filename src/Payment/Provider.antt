-- ===== src/Payment/Provider.antt =====
-- backend/internal/payment: provider.go and provider_mock.go, the provider that every tier and
-- every demonstration runs against.
use ottodot_trial_booking_se.Prelude.{
  Bool, List, Option, Text, [], codes, false, if◌then◌else◌, insert, is_empty, lookup, lookup_or,
  negsuc, none, not, pos, some, suc, true, ℕ, ℤ, ◌%◌, ◌++◌, ◌==◌, ◌||◌,
}
use ottodot_trial_booking_se.Payment.Model.{
  Amount, Error, err_invalid_request, err_provider_unavailable, validate_amount,
}

pub data Outcome : Type 0 where
  settled declined provider_error : Outcome
  other_outcome : Text → Outcome

unfoldable pub is_known_outcome : Outcome → Bool
is_known_outcome (other_outcome s) = false
is_known_outcome _ = true

pub record ChargeRequest : Type 0 where
  pub attempt_id : Text
  pub reference : Text
  pub amount : Amount
  pub idempotency_key : Text

pub record ChargeResult : Type 0 where
  pub outcome : Outcome
  pub provider_ref : Text
  pub failure_reason : Text

pub record RefundRequest : Type 0 where
  pub provider_ref : Text
  pub reference : Text
  pub amount : Amount
  pub idempotency_key : Text

abbrev pub no_charge : ChargeResult
no_charge = record { outcome = other_outcome []; provider_ref = []; failure_reason = [] }

-- `RefundResult` is its one field, the reference of the refund.
abbrev pub RefundResult : Type 0
RefundResult = Text

pub record MockProvider : Type 0 where
  pub forced : List (Text × Outcome)
  pub fault : Option (Text → Bool)
  pub charges : ℕ
  pub refunds : ℕ
  pub settled_refunds : List (Text × RefundResult)

unfoldable pub new_provider : MockProvider
new_provider = record { forced = []; fault = none; charges = 0; refunds = 0; settled_refunds = [] }

unfoldable pub inject_faults : MockProvider → Option (Text → Bool) → MockProvider
inject_faults provider fault = record provider { fault = fault }

unfoldable pub force_outcome : MockProvider → Text → Outcome → MockProvider × Option Error
force_outcome provider reference outcome =
    if is_empty reference || not (is_known_outcome outcome)
    then (provider, some err_invalid_request)
    else (record provider { forced = insert reference outcome provider.forced }, none)

-- `cents % 100` is Go's remainder, which is negative or 0 for a negative amount.
abbrev ending : ℤ → Outcome
ending (pos n) = if n % 100 == 1 then declined else if n % 100 == 2 then provider_error else settled
ending (negsuc n) = settled

unfoldable pub decide_outcome : Amount → Outcome
decide_outcome amount = ending amount.cents

abbrev pub provider_error_point : Text
provider_error_point = codes "payment.provider_error"

unfoldable pub fault_triggered : Option (Text → Bool) → Text → Bool
fault_triggered none point = false
fault_triggered (some fault) point = fault point

abbrev pub decline_reason : Text
decline_reason = codes "the provider declined this charge"

-- The `switch` that answers a charge.
unfoldable pub answer : Outcome → ChargeRequest → ChargeResult × Option Error
answer declined request =
    (record { outcome = declined; provider_ref = []; failure_reason = decline_reason }, none)
answer provider_error request = (
  record { outcome = provider_error; provider_ref = []; failure_reason = [] },
  some err_provider_unavailable,
)
answer _ request = (
  record {
    outcome = settled;
    provider_ref = codes "mock_" ++ request.attempt_id;
    failure_reason = [];
  },
  none,
)

unfoldable pub outcome_of : MockProvider → ChargeRequest → Outcome
outcome_of provider request =
    if fault_triggered provider.fault provider_error_point
    then provider_error
    else lookup_or (decide_outcome request.amount) request.reference provider.forced

unfoldable pub charge : MockProvider → ChargeRequest → MockProvider × ChargeResult × Option Error
charge provider request =
    if is_empty request.attempt_id || is_empty request.reference
    then (provider, no_charge, some err_invalid_request)
    else elim (validate_amount request.amount) [
      | some err ↦ (provider, no_charge, some err)
      | none ↦
          let (result, err) = answer (outcome_of provider request) request in
          (record provider { charges = suc provider.charges }, result, err)
    ]

abbrev pub is_provider_error : Option Outcome → Bool
is_provider_error (some provider_error) = true
is_provider_error _ = false

unfoldable pub refund : MockProvider → RefundRequest → MockProvider × RefundResult × Option Error
refund provider request =
    if is_empty request.provider_ref
      || (is_empty request.reference || is_empty request.idempotency_key)
    then (provider, [], some err_invalid_request)
    else elim (validate_amount request.amount) [
      | some err ↦ (provider, [], some err)
      | none ↦ elim (lookup request.idempotency_key provider.settled_refunds) [
        | some already ↦ (provider, already, none)
        | none ↦
            if is_provider_error (lookup request.reference provider.forced)
            then (provider, [], some err_provider_unavailable)
            else (
              record provider {
                settled_refunds =
                    insert request.idempotency_key (codes "mock_refund_" ++ request.provider_ref)
                      provider.settled_refunds;
                refunds = suc provider.refunds;
              },
              codes "mock_refund_" ++ request.provider_ref,
              none,
            )
      ]
    ]
