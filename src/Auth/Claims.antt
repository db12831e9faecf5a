-- ===== src/Auth/Claims.antt =====
-- backend/internal/auth/claims.go: the payload of an access token. A numeric claim is a count of
-- seconds since 1970, which an instant (nanoseconds since Go's zero instant) is converted to.
use ottodot_trial_booking_se.Prelude.{
  ltb, Bool, Option, Text, Time, [], before, codes, if◌then◌else◌, is_empty, leb_ℤ, negsuc, none,
  not, pos, some, suc, text_eq, ℕ, ℤ, ◌*◌, ◌+◌, ◌-ℤ◌, ◌-◌, ◌/◌, ◌||◌,
}
use ottodot_trial_booking_se.Auth.Errors.{Error, err_token_invalid}

abbrev pub role_parent : Text
role_parent = codes "parent"

abbrev pub role_admin : Text
role_admin = codes "admin"

abbrev pub type_access : Text
type_access = codes "access"

unfoldable pub is_known_role : Text → Bool
is_known_role role = text_eq role role_parent || text_eq role role_admin

pub record Claims : Type 0 where
  pub subject : Text
  pub role : Text
  pub token_type : Text
  pub token_id : Text
  pub issued_at : ℤ  -- int64
  pub expires_at : ℤ  -- int64

abbrev pub no_claims : Claims
no_claims = record {
  subject = [];
  role = [];
  token_type = [];
  token_id = [];
  issued_at = pos 0;
  expires_at = pos 0;
}

unfoldable pub validate_claims : Claims → Option Error
validate_claims claims =
    if is_empty claims.subject || is_empty claims.token_id
    then some err_token_invalid
    else if not (text_eq claims.token_type type_access) || not (is_known_role claims.role)
    then some err_token_invalid
    else if leb_ℤ claims.issued_at (pos 0) || leb_ℤ claims.expires_at claims.issued_at
    then some err_token_invalid
    else none

-- 1 January 1970 in seconds since Go's zero instant.
abbrev pub epoch_seconds : ℕ
epoch_seconds = 62135596800

abbrev pub ns_per_second : ℕ
ns_per_second = 1000000000

-- `time.Unix(s, 0)`: the seconds since Go's zero instant are an int64, whose sum wraps to before that
-- instant; what lies before it stands at 0, from where it is as long past.
unfoldable pub unix_time : ℤ → Time
unix_time (pos s) =
    if ltb (epoch_seconds + s) 9223372036854775808 then (epoch_seconds + s) * ns_per_second else 0
unix_time (negsuc s) = (epoch_seconds - suc s) * ns_per_second

-- `t.Unix()`, which rounds down.
unfoldable pub unix_seconds : Time → ℤ
unix_seconds t = pos (t / ns_per_second) -ℤ pos epoch_seconds

unfoldable pub claims_expired : Claims → Time → Bool
claims_expired claims now = not (before now (unix_time claims.expires_at))

unfoldable pub claims_expiry : Claims → Time
claims_expiry claims = unix_time claims.expires_at
