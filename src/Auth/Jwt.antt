-- ===== src/Auth/Jwt.antt =====
-- backend/internal/auth/jwt.go: the signed access token. The JSON, base64 and HMAC libraries are the
-- parameters of a `Codec`; `none` is an error of theirs.
use ottodot_trial_booking_se.Prelude.{
  Bool, List, Option, Text, Time, [], codes, false, if◌then◌else◌, length, ltb, none, not, some,
  text_eq, ℕ, ◌||◌, ◌∷◌,
}
pub mod Dots
pub mod Laws
pub mod Authentic
use ottodot_trial_booking_se.Auth.Errors.{
  Error, err_token_invalid, err_token_expired, err_invalid_request,
}
use ottodot_trial_booking_se.Auth.Claims.{Claims, no_claims, validate_claims, claims_expired}
use ottodot_trial_booking_se.Auth.Jwt.Dots.{split_dots, dotted}

pub record Header : Type 0 where
  pub algorithm : Text
  pub header_type : Text

abbrev pub algorithm_hs256 : Text
algorithm_hs256 = codes "HS256"

abbrev pub type_jwt : Text
type_jwt = codes "JWT"

abbrev pub envelope : Header
envelope = record { algorithm = algorithm_hs256; header_type = type_jwt }

-- encodeSegment and decodeSegment at the two types that the code uses them at, the MAC of a text
-- under a key, and the base64 of a MAC.
pub record Codec : Type 0 where
  pub encode_header : Header → Option Text
  pub decode_header : Text → Option Header
  pub encode_claims : Claims → Option Text
  pub decode_claims : Text → Option Claims
  pub mac : Text → Text → Text
  pub encode_mac : Text → Text
  pub decode_mac : Text → Option Text

abbrev pub minimum_secret_bytes : ℕ
minimum_secret_bytes = 32

-- `Signer` is its one field, the key.
unfoldable pub new_signer : Text → Option Text × Option Error
new_signer secret =
    if ltb (length secret) minimum_secret_bytes
    then (none, some err_invalid_request)
    else (some secret, none)

unfoldable pub signature : Codec → Text → Text → Text
signature codec secret signing_input = codec.encode_mac (codec.mac secret signing_input)

-- matches
unfoldable pub has_mac : Codec → Text → Text → Text → Bool
has_mac codec secret signing_input presented = elim (codec.decode_mac presented) [
  | none ↦ false
  | some expected ↦ text_eq (codec.mac secret signing_input) expected
]

unfoldable pub sign : Codec → Text → Claims → Text × Option Error
sign codec secret claims = elim (validate_claims claims) [
  | some err ↦ ([], some err)
  | none ↦ elim (codec.encode_header envelope) [
    | none ↦ ([], some err_token_invalid)
    | some encoded_header ↦ elim (codec.encode_claims claims) [
      | none ↦ ([], some err_token_invalid)
      | some encoded_payload ↦
          let signing_input = dotted encoded_header encoded_payload in
          (dotted signing_input (signature codec secret signing_input), none)
    ]
  ]
]

-- Verify, from the claims on.
unfoldable pub judge : Claims → Time → Claims × Option Error
judge claims now = elim (validate_claims claims) [
  | some err ↦ (no_claims, some err)
  | none ↦ if claims_expired claims now then (claims, some err_token_expired) else (claims, none)
]

abbrev pub is_envelope : Header → Bool
is_envelope header =
    not
      (not (text_eq header.algorithm algorithm_hs256) || not (text_eq header.header_type type_jwt))

-- Verify, once the token has three segments.
unfoldable pub verify_segments : Codec → Text → Text → Text → Text → Time → Claims × Option Error
verify_segments codec secret first second third now = elim (codec.decode_header first) [
  | none ↦ (no_claims, some err_token_invalid)
  | some header ↦
      if not (is_envelope header)
      then (no_claims, some err_token_invalid)
      else if not (has_mac codec secret (dotted first second) third)
      then (no_claims, some err_token_invalid)
      else elim (codec.decode_claims second) [
        | none ↦ (no_claims, some err_token_invalid)
        | some claims ↦ judge claims now
      ]
]

abbrev pub verify_split : Codec → Text → List Text → Time → Claims × Option Error
verify_split codec secret (first ∷ second ∷ third ∷ []) now =
    verify_segments codec secret first second third now
verify_split codec secret _ now = (no_claims, some err_token_invalid)

unfoldable pub verify : Codec → Text → Text → Time → Claims × Option Error
verify codec secret token now = verify_split codec secret (split_dots token) now
