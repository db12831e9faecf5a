-- ===== src/Payment/Service.antt =====
-- backend/internal/payment: service.go and refund.go. The service's two dependencies are one state;
-- the identifier and the instants that a call reads are its arguments, in the order of the reads.
pub mod Replay
pub mod Answer
pub mod Rows
pub mod Twice
pub mod Refunds
pub mod Paid
pub mod Funded
pub mod Refundable
use ottodot_trial_booking_se.Prelude.{
  Bool, List, Option, Text, Time, [], codes, false, if◌then◌else◌, is_empty, none, not, some, true,
  ◌++◌, ◌∷◌,
}
use ottodot_trial_booking_se.Payment.Provider.{
  ChargeRequest, ChargeResult, MockProvider, Outcome, RefundRequest, charge, declined, refund,
  settled,
}
use ottodot_trial_booking_se.Payment.Model.{
  Amount, Attempt, BeginRequest, Error, Status, err_attempt_pending, err_declined,
  err_invalid_request, err_nothing_to_refund, failed, foreign, no_amount, no_attempt, succeeded,
  validate_amount, validate_idempotency_key,
}
use ottodot_trial_booking_se.Payment.Memory.{get_attempt, Repository, attempts_for, begin, settle}
use ottodot_trial_booking_se.Identifier.{Minted, mint_failed, minted}

pub record Payments : Type 0 where
  pub repository : Repository
  pub provider : MockProvider

pub record PayCommand : Type 0 where
  pub booking_id : Text
  pub amount : Amount
  pub idempotency_key : Text

-- replayOf
abbrev replay_status : Status → Option Error
replay_status succeeded = none
replay_status failed = some err_declined
replay_status _ = some err_attempt_pending

unfoldable pub replay_of : Attempt → Attempt × Option Error
replay_of stored = (stored, replay_status stored.status)

unfoldable pub charge_request : Attempt → ChargeRequest
charge_request opened = record {
  attempt_id = opened.id;
  reference = opened.booking_id;
  amount = opened.amount;
  idempotency_key = opened.idempotency_key;
}

-- The write of a declined answer.
unfoldable pub settle_declined :
    Payments → Attempt → ChargeResult → Time → Payments × Attempt × Option Error
settle_declined payments opened result now =
    let (repository, attempt, err) = settle payments.repository (record {
      attempt_id = opened.id;
      status = failed;
      provider_ref = [];
      failure_reason = result.failure_reason;
      now = now;
    }) in
    elim err [
      | some settle_err ↦ (record payments { repository = repository }, no_attempt, some settle_err)
      | none ↦ (record payments { repository = repository }, attempt, some err_declined)
    ]

-- The write of a settled one.
unfoldable pub settle_succeeded :
    Payments → Attempt → ChargeResult → Time → Payments × Attempt × Option Error
settle_succeeded payments opened result now =
    let (repository, attempt, err) = settle payments.repository (record {
      attempt_id = opened.id;
      status = succeeded;
      provider_ref = result.provider_ref;
      failure_reason = [];
      now = now;
    }) in
    (record payments { repository = repository }, attempt, err)

abbrev is_declined : Outcome → Bool
is_declined declined = true
is_declined _ = false

abbrev pub after_charge :
    Payments
    → Attempt
    → Time
    → MockProvider × ChargeResult × Option Error
    → Payments × Attempt × Option Error
after_charge payments opened now (provider, result, some charge_err) =
    (record payments { provider = provider }, opened, some charge_err)
after_charge payments opened now (provider, result, none) =
    if is_declined result.outcome
    then settle_declined (record payments { provider = provider }) opened result now
    else settle_succeeded (record payments { provider = provider }) opened result now

-- Pay, from the charge on: the attempt is open and is not a replay.
unfoldable pub charge_opened : Payments → Attempt → Time → Payments × Attempt × Option Error
charge_opened payments opened now =
    after_charge payments opened now (charge payments.provider (charge_request opened))

unfoldable pub begin_request : Text → PayCommand → Time → BeginRequest
begin_request attempt_id command now = record {
  attempt_id = attempt_id;
  booking_id = command.booking_id;
  idempotency_key = command.idempotency_key;
  amount = command.amount;
  now = now;
}

abbrev after_begin :
    Payments → Repository × Attempt × Bool × Option Error → Time → Payments × Attempt × Option Error
after_begin payments (repository, opened, replayed, some err) now =
    (record payments { repository = repository }, no_attempt, some err)
after_begin payments (repository, opened, true, none) now =
    (record payments { repository = repository }, (replay_of opened).0, (replay_of opened).1)
after_begin payments (repository, opened, false, none) now =
    charge_opened (record payments { repository = repository }) opened now

-- Pay, with nobody between its Begin, its Charge and its Settle.
unfoldable pub pay :
    Payments → Minted → Time → Time → PayCommand → Payments × Attempt × Option Error
pay payments mint now settled_now command =
    if is_empty command.booking_id
    then (payments, no_attempt, some err_invalid_request)
    else elim (validate_amount command.amount) [
      | some err ↦ (payments, no_attempt, some err)
      | none ↦ elim (validate_idempotency_key command.idempotency_key) [
        | some err ↦ (payments, no_attempt, some err)
        | none ↦ elim mint [
          | mint_failed why ↦ (payments, no_attempt, some (foreign why))
          | minted attempt_id ↦
              after_begin payments
                (begin payments.repository (begin_request attempt_id command now)) settled_now
        ]
      ]
    ]

-- Service.Attempt and Service.AttemptsFor
unfoldable pub read_attempt : Payments → Text → Attempt × Option Error
read_attempt payments attempt_id =
    if is_empty attempt_id
    then (no_attempt, some err_invalid_request)
    else get_attempt payments.repository attempt_id

unfoldable pub read_attempts : Payments → Text → List Attempt × Option Error
read_attempts payments booking_id =
    if is_empty booking_id
    then ([], some err_invalid_request)
    else (attempts_for payments.repository booking_id, none)

-- refund.go
pub record Refund : Type 0 where
  pub attempt_id : Text
  pub provider_ref : Text
  pub refund_ref : Text
  pub amount : Amount
  pub refunded_at : Time

abbrev pub no_refund : Refund
no_refund = record {
  attempt_id = [];
  provider_ref = [];
  refund_ref = [];
  amount = no_amount;
  refunded_at = 0;
}

unfoldable pub refund_key_for : Text → Text
refund_key_for attempt_id = codes "refund_" ++ attempt_id

-- The loop of settledAttempt.
abbrev pub moved_money : Attempt → Bool
moved_money attempt = elim attempt.status [
  | succeeded ↦ not (is_empty attempt.provider_ref)
  | _ ↦ false
]

unfoldable pub settled_attempt : List Attempt → Option Attempt
settled_attempt [] = none
settled_attempt (attempt ∷ attempts) =
    if moved_money attempt then some attempt else settled_attempt attempts

unfoldable pub refund_request : Attempt → RefundRequest
refund_request paid = record {
  provider_ref = paid.provider_ref;
  reference = paid.booking_id;
  amount = paid.amount;
  idempotency_key = refund_key_for paid.id;
}

unfoldable pub refund_booking : Payments → Time → Text → Payments × Refund × Option Error
refund_booking payments now booking_id =
    if is_empty booking_id
    then (payments, no_refund, some err_invalid_request)
    else elim (settled_attempt (attempts_for payments.repository booking_id)) [
      | none ↦ (payments, no_refund, some err_nothing_to_refund)
      | some paid ↦
          let (provider, refund_ref, err) = refund payments.provider (refund_request paid) in
          elim err [
            | some refund_err ↦
                (record payments { provider = provider }, no_refund, some refund_err)
            | none ↦ (
              record payments { provider = provider },
              record {
                attempt_id = paid.id;
                provider_ref = paid.provider_ref;
                refund_ref = refund_ref;
                amount = paid.amount;
                refunded_at = now;
              },
              none,
            )
          ]
    ]
