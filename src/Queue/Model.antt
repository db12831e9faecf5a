-- ===== src/Queue/Model.antt =====
-- backend/internal/queue: job.go, errors.go and the requests of queue.go. The payload is opaque: the
-- test that it is a JSON object is the JSON library's, and a parameter of the requests' check.
use ottodot_trial_booking_se.Prelude.{
  zero, Bool, Duration, Option, Text, Time, [], after, false, if◌then◌else◌, is_empty, is_zero, leb,
  leb_ℤ, ltb_ℤ, negsuc, none, not, pos, some, suc, true, ℕ, ℤ, ◌&&◌, ◌||◌,
}

pub data Error : Type 0 where
  err_invalid_request err_unknown_kind err_invalid_payload err_job_not_found : Error
  err_duplicate_job : Error

-- A Go `Kind` is a string; `other_kind` is any but the two constants.
pub data Kind : Type 0 where
  expire_hold reconcile_refund : Kind
  other_kind : Text → Kind

unfoldable pub is_known_kind : Kind → Bool
is_known_kind (other_kind name) = false
is_known_kind _ = true

pub record Job : Type 0 where
  pub id : Text
  pub kind : Kind
  pub payload : Text
  pub run_after : Time
  pub attempts : ℤ  -- int16
  pub locked_until : Time
  pub created_at : Time

abbrev pub no_job : Job
no_job = record {
  id = [];
  kind = other_kind [];
  payload = [];
  run_after = 0;
  attempts = pos 0;
  locked_until = 0;
  created_at = 0;
}

-- `Attempts++` on an int16: the greatest value goes to the least.
unfoldable pub next_int16 : ℤ → ℤ
next_int16 (pos n) = if leb 32767 n then negsuc 32767 else pos (suc n)
next_int16 (negsuc zero) = pos 0
next_int16 (negsuc (suc n)) = negsuc n

unfoldable pub is_claimed : Job → Time → Bool
is_claimed job now = not (is_zero job.locked_until) && after job.locked_until now

unfoldable pub is_due : Job → Time → Bool
is_due job now = not (after job.run_after now)

unfoldable pub is_parked : Job → ℤ → Bool
is_parked job max_attempts = leb_ℤ max_attempts job.attempts

pub record EnqueueRequest : Type 0 where
  pub job_id : Text
  pub kind : Kind
  pub payload : Text
  pub run_after : Time
  pub now : Time

pub record ClaimRequest : Type 0 where
  pub now : Time
  pub lease : Duration
  pub limit : ℤ
  pub max_attempts : ℤ

pub record ReleaseRequest : Type 0 where
  pub job_id : Text
  pub run_after : Time

pub record DepthRequest : Type 0 where
  pub now : Time
  pub max_attempts : ℤ

pub record Depth : Type 0 where
  pub ready : ℕ
  pub claimed : ℕ
  pub parked : ℕ

unfoldable pub valid_payload : (Text → Bool) → Text → Bool
valid_payload is_object payload = if is_empty payload then false else is_object payload

unfoldable pub validate_enqueue : (Text → Bool) → EnqueueRequest → Option Error
validate_enqueue is_object request =
    if is_empty request.job_id || is_zero request.now
    then some err_invalid_request
    else if not (is_known_kind request.kind)
    then some err_unknown_kind
    else if not (valid_payload is_object request.payload)
    then some err_invalid_payload
    else none

unfoldable pub validate_claim : ClaimRequest → Option Error
validate_claim request =
    if is_zero request.now || leb_ℤ request.lease (pos 0)
    then some err_invalid_request
    else if ltb_ℤ request.limit (pos 1) || ltb_ℤ request.max_attempts (pos 1)
    then some err_invalid_request
    else none

unfoldable pub validate_release : ReleaseRequest → Option Error
validate_release request =
    if is_empty request.job_id || is_zero request.run_after then some err_invalid_request else none

unfoldable pub validate_depth : DepthRequest → Option Error
validate_depth request =
    if is_zero request.now || ltb_ℤ request.max_attempts (pos 1)
    then some err_invalid_request
    else none

-- scheduledAt
unfoldable pub scheduled_at : EnqueueRequest → Time
scheduled_at request = if is_zero request.run_after then request.now else request.run_after
