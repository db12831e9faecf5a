-- ===== src/Payment/Examples.antt =====
-- Runs of the payment component on concrete inputs.
use ottodot_trial_booking_se.Payment.Service.Refunds.{refund_twice}
use ottodot_trial_booking_se.Prelude.{
  List, Text, Text-discrete, [], codes, insert, lookup, none, pos, refl, some, true, ◌∷◌, ◌≡◌,
}
use ottodot_trial_booking_se.Payment.Service.Twice.{pay_twice, meanwhile}
use ottodot_trial_booking_se.Payment.Service.{
  PayCommand, Payments, begin_request, charge_opened, charge_request, pay, refund_booking,
  refund_key_for, refund_request, settle_declined, settled_attempt,
}
use ottodot_trial_booking_se.Payment.Provider.{
  MockProvider, answer, charge, decide_outcome, fault_triggered, outcome_of, refund,
}
use ottodot_trial_booking_se.Payment.Model.{
  Amount, Attempt, BeginRequest, failed, is_settled, normalised, same_as, succeeded,
  validate_amount, validate_idempotency_key, validate_settle,
}
use ottodot_trial_booking_se.Payment.Memory.Once.{key_opens_once, settled_for_good}
use ottodot_trial_booking_se.Payment.Memory.Laws.{IsKept}
use ottodot_trial_booking_se.Payment.Memory.Keys.{AllFresh, Call, begins, run, settles, step}
use ottodot_trial_booking_se.Payment.Memory.{
  Repository, attempts_for, begin, by_key, opened_of, settle, settled_of, walk_keys,
}
use ottodot_trial_booking_se.Identifier.{minted}

abbrev booking_a : Text
booking_a = codes "booking-a"

abbrev attempt_1 : Text
attempt_1 = codes "attempt-1"

abbrev attempt_2 : Text
attempt_2 = codes "attempt-2"

abbrev ten_dollars : Amount
ten_dollars = record { cents = pos 1000; currency = [] }

abbrev ends_in_01 : Amount
ends_in_01 = record { cents = pos 1001; currency = codes "SGD" }

abbrev one_booking : Payments
one_booking = record {
  repository = record { bookings = (booking_a, tt) ∷ []; attempts = []; order = [] };
  provider = record { forced = []; fault = none; charges = 0; refunds = 0; settled_refunds = [] };
}

one_booking-IsKept : IsKept one_booking.repository
one_booking-IsKept = record { keyed = tt; rows = tt }

abbrev paying : Amount → PayCommand
paying amount = record { booking_id = booking_a; amount = amount; idempotency_key = codes "key-1" }

abbrev first_row : Attempt
first_row = record {
  id = attempt_1;
  booking_id = booking_a;
  idempotency_key = codes "key-1";
  amount = record { cents = pos 1000; currency = codes "SGD" };
  status = succeeded;
  provider_ref = codes "mock_attempt-1";
  failure_reason = [];
  created_at = 5;
  settled_at = 6;
}

abbrev paid_repository : Repository
paid_repository = record {
  bookings = (booking_a, tt) ∷ [];
  attempts = (attempt_1, first_row) ∷ [];
  order = attempt_1 ∷ [];
}

paid_repository-IsKept : IsKept paid_repository
unfolding lookup Text-discrete
paid_repository-IsKept = record { keyed = (refl, tt); rows = ((first_row, refl, refl), tt) }

abbrev other_calls : List Call
other_calls =
    begins (record {
      attempt_id = attempt_2;
      booking_id = booking_a;
      idempotency_key = codes "key-2";
      amount = ten_dollars;
      now = 7;
    })
    ∷ settles (record {
      attempt_id = attempt_2;
      status = failed;
      provider_ref = [];
      failure_reason = codes "declined";
      now = 8;
    })
    ∷ []

abbrev repeated : BeginRequest
repeated = record {
  attempt_id = codes "attempt-3";
  booking_id = booking_a;
  idempotency_key = codes "key-1";
  amount = ten_dollars;
  now = 9;
}

other_calls-AllFresh : AllFresh paid_repository other_calls
unfolding lookup Text-discrete
other_calls-AllFresh = (refl, (tt, tt))

key_opens_once_example :
    (run paid_repository other_calls ≡ run paid_repository other_calls)
    × (true ≡ true)
    × (first_row.id ≡ first_row.id)
    × (first_row.amount ≡ first_row.amount)
unfolding lookup Text-discrete run step begin settle by_key walk_keys validate_amount
    validate_settle validate_idempotency_key normalised same_as is_settled insert opened_of
    settled_of
key_opens_once_example =
    key_opens_once paid_repository other_calls repeated first_row first_row
      (run paid_repository other_calls) true paid_repository-IsKept other_calls-AllFresh refl refl

settled_for_good_example :
    by_key (run paid_repository other_calls) booking_a (codes "key-1") ≡ some first_row
unfolding lookup Text-discrete by_key walk_keys is_settled
settled_for_good_example =
    settled_for_good paid_repository other_calls booking_a (codes "key-1") first_row
      paid_repository-IsKept other_calls-AllFresh refl refl

-- A provider that fails by then.
abbrev outage : MockProvider
outage = record {
  forced = [];
  fault = some (λ point. true);
  charges = 7;
  refunds = 1;
  settled_refunds = [];
}

pay_twice_example :
    pay
      (meanwhile (pay one_booking (minted attempt_1) 5 6 (paying ends_in_01)).0 other_calls outage)
      (minted (codes "attempt-3"))
      9
      10
      (paying ends_in_01)
    ≡ (
      meanwhile (pay one_booking (minted attempt_1) 5 6 (paying ends_in_01)).0 other_calls outage,
      (pay one_booking (minted attempt_1) 5 6 (paying ends_in_01)).1,
      (pay one_booking (minted attempt_1) 5 6 (paying ends_in_01)).2,
    )
unfolding lookup Text-discrete run step begin settle by_key walk_keys validate_amount
    validate_settle validate_idempotency_key normalised same_as is_settled insert opened_of
    settled_of pay charge_opened charge outcome_of decide_outcome answer settle_declined
    charge_request begin_request fault_triggered
pay_twice_example =
    pay_twice one_booking attempt_1 (codes "attempt-3") 5 6 9 10 (paying ends_in_01) other_calls
      outage one_booking-IsKept refl refl refl refl (refl, (tt, tt))

abbrev paid_booking : Payments
paid_booking = record {
  repository = paid_repository;
  provider = record { forced = []; fault = none; charges = 1; refunds = 0; settled_refunds = [] };
}

refund_twice_example : refund_booking (refund_booking paid_booking 20 booking_a).0 30 booking_a ≡ (
  (refund_booking paid_booking 20 booking_a).0,
  record ((refund_booking paid_booking 20 booking_a).1) { refunded_at = 30 },
  none,
)
unfolding lookup Text-discrete refund_booking refund settled_attempt attempts_for validate_amount
    normalised refund_request refund_key_for insert
refund_twice_example = refund_twice paid_booking 20 30 booking_a refl
