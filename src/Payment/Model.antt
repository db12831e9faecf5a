-- ===== src/Payment/Model.antt =====
-- backend/internal/payment: amount.go, attempt.go, idempotency.go, errors.go, the requests of
-- repository.go and the shapes of provider.go.
use ottodot_trial_booking_se.Prelude.{
  Bool, Option, Text, Time, [], codes, eq_ℤ, false, if◌then◌else◌, is_empty, leb, leb_ℤ, length,
  ltb, none, not, pos, some, text_eq, true, ℕ, ℤ, ◌&&◌, ◌==◌, ◌||◌, ◌∷◌,
}

pub data Error : Type 0 where
  err_invalid_request err_invalid_amount err_invalid_currency err_invalid_idempotency_key : Error
  err_booking_not_found err_attempt_not_found err_already_settled err_attempt_pending : Error
  err_idempotency_conflict err_declined err_nothing_to_refund err_provider_unavailable : Error
  foreign : Text → Error

pub record Amount : Type 0 where
  pub cents : ℤ  -- int32
  pub currency : Text

abbrev pub default_currency : Text
default_currency = codes "SGD"

unfoldable pub normalised : Amount → Amount
normalised amount =
    if is_empty amount.currency then record amount { currency = default_currency } else amount

-- The loop of Validate: a byte outside A..Z refuses.
abbrev pub capitals : Text → Bool
capitals [] = true
capitals (c ∷ s) = if ltb c b'A' || ltb b'Z' c then false else capitals s

unfoldable pub validate_amount : Amount → Option Error
validate_amount amount =
    if leb_ℤ amount.cents (pos 0)
    then some err_invalid_amount
    else if not (length (normalised amount).currency == 3)
    then some err_invalid_currency
    else if capitals (normalised amount).currency
    then none
    else some err_invalid_currency

unfoldable pub same_as : Amount → Amount → Bool
same_as amount other =
    eq_ℤ (normalised amount).cents (normalised other).cents
    && text_eq (normalised amount).currency (normalised other).currency

-- A Go `Status` is a string; `other` is any but the three constants.
pub data Status : Type 0 where
  initiated succeeded failed : Status
  other : Text → Status

unfoldable pub is_settled : Status → Bool
is_settled succeeded = true
is_settled failed = true
is_settled _ = false

pub record Attempt : Type 0 where
  pub id : Text
  pub booking_id : Text
  pub idempotency_key : Text
  pub amount : Amount
  pub status : Status
  pub provider_ref : Text
  pub failure_reason : Text
  pub created_at : Time
  pub settled_at : Time

abbrev pub no_amount : Amount
no_amount = record { cents = pos 0; currency = [] }

-- The zero value `Attempt{}`.
abbrev pub no_attempt : Attempt
no_attempt = record {
  id = [];
  booking_id = [];
  idempotency_key = [];
  amount = no_amount;
  status = other [];
  provider_ref = [];
  failure_reason = [];
  created_at = 0;
  settled_at = 0;
}

abbrev pub max_idempotency_key_length : ℕ
max_idempotency_key_length = 128

-- The loop of ValidateIdempotencyKey: a byte up to ' ' or above '~' refuses.
abbrev pub printable : Text → Bool
printable [] = true
printable (c ∷ s) = if leb c b' ' || ltb b'~' c then false else printable s

unfoldable pub validate_idempotency_key : Text → Option Error
validate_idempotency_key key =
    if is_empty key || ltb max_idempotency_key_length (length key)
    then some err_invalid_idempotency_key
    else if printable key
    then none
    else some err_invalid_idempotency_key

pub record BeginRequest : Type 0 where
  pub attempt_id : Text
  pub booking_id : Text
  pub idempotency_key : Text
  pub amount : Amount
  pub now : Time

pub record SettleRequest : Type 0 where
  pub attempt_id : Text
  pub status : Status
  pub provider_ref : Text
  pub failure_reason : Text
  pub now : Time

abbrev is_succeeded : Status → Bool
is_succeeded succeeded = true
is_succeeded _ = false

abbrev is_failed : Status → Bool
is_failed failed = true
is_failed _ = false

unfoldable pub validate_settle : SettleRequest → Option Error
validate_settle request =
    if is_empty request.attempt_id || not (is_settled request.status)
    then some err_invalid_request
    else if is_succeeded request.status && is_empty request.provider_ref
    then some err_invalid_request
    else if is_failed request.status && not (is_empty request.provider_ref)
    then some err_invalid_request
    else none
