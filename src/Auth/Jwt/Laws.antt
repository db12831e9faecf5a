-- ===== src/Auth/Jwt/Laws.antt =====
-- jwt.go: Sign and Verify against each other.
use ottodot_trial_booking_se.Prelude.{
  IsAscii, before, negsuc, pos, ℤ, ◌≤ℤ◌, Bool-cases, Text-discrete, true, Option-cases, Text, Time,
  [], ap, if◌then◌else◌, inl, inr, none, refl, some, text_eq_refl, ◌∙◌, ◌∷◌, ◌≡◌,
}
use ottodot_trial_booking_se.Auth.Jwt.{
  Codec, envelope, sign, verify, verify_segments, judge, has_mac, signature,
}
use ottodot_trial_booking_se.Auth.Jwt.Dots.{
  IsDotless, split_dots, split_dots-dotless, split_dots-dotted, dotted,
}
use ottodot_trial_booking_se.Auth.Claims.{unix_time, Claims, validate_claims, claims_expired}
use ottodot_trial_booking_se.Auth.Errors.{err_token_expired, err_token_invalid}

-- The bounds of an int64.
abbrev pub IsInt64 : ℤ → Type 0
IsInt64 n = (negsuc 9223372036854775807 ≤ℤ n) × (n ≤ℤ pos 9223372036854775807)

-- The claims that an encoder keeps as they are: their texts are ASCII, and their instants an int64.
pub record IsPlain (held : Claims) : Type 0 where
  pub subject : IsAscii held.subject
  pub role : IsAscii held.role
  pub token_type : IsAscii held.token_type
  pub token_id : IsAscii held.token_id
  pub issued_at : IsInt64 held.issued_at
  pub expires_at : IsInt64 held.expires_at

-- What the libraries do: on what is plain, each decoder reads back what its encoder wrote, and base64 has no dot.
pub record IsCodec (codec : Codec) : Type 0 where
  pub header_back :
      (text : Text)
      → codec.encode_header envelope ≡ some text
      → (codec.decode_header text ≡ some envelope) × IsDotless text
  pub claims_back :
      (held : Claims) (text : Text)
      → IsPlain held
      → codec.encode_claims held ≡ some text
      → (codec.decode_claims text ≡ some held) × IsDotless text
  pub mac_back :
      (digest : Text)
      → (codec.decode_mac (codec.encode_mac digest) ≡ some digest)
        × IsDotless (codec.encode_mac digest)

-- What signing writes: three segments, over claims that pass their check.
record Signed (codec : Codec) (secret : Text) (held : Claims) : Type 0 where
  first : Text
  payload : Text
  header : codec.encode_header envelope ≡ some first
  claimed : codec.encode_claims held ≡ some payload
  valid : validate_claims held ≡ none
  written :
      (sign codec secret held).0
      ≡ dotted (dotted first payload) (signature codec secret (dotted first payload))

sign-Signed :
    (codec : Codec) (secret : Text) (held : Claims)
    → (sign codec secret held).1 ≡ none
    → Signed codec secret held
unfolding sign
sign-Signed codec secret held ok = elim (Option-cases (validate_claims held)) [
  | inr (err, v) ↦ let bad : (sign codec secret held).1 ≡ some err = rw (v, sign) refl in absurd cc
  | inl v ↦ elim (Option-cases (codec.encode_header envelope)) [
    | inl h ↦
        let bad : (sign codec secret held).1 ≡ some err_token_invalid = rw (v, h, sign) refl in
        absurd cc
    | inr (first, h) ↦ elim (Option-cases (codec.encode_claims held)) [
      | inl c ↦
          let bad : (sign codec secret held).1 ≡ some err_token_invalid = rw (v, h, c, sign) refl in
          absurd cc
      | inr (payload, c) ↦ record {
        first = first;
        payload = payload;
        header = h;
        claimed = c;
        valid = v;
        written = rw (v, h, c, sign) refl;
      }
    ]
  ]
]

dotted_assoc : (a b c : Text) → dotted (dotted a b) c ≡ dotted a (dotted b c)
dotted_assoc [] b c = refl
dotted_assoc (x ∷ a) b c = ap (λ w. x ∷ w) (dotted_assoc a b c)

split-signed :
    (a b c : Text)
    → IsDotless a
    → IsDotless b
    → IsDotless c
    → split_dots (dotted (dotted a b) c) ≡ a ∷ b ∷ c ∷ []
split-signed a b c p q r =
    ap split_dots (dotted_assoc a b c)
    ∙ split_dots-dotted a (dotted b c) p
    ∙ ap (λ w. a ∷ w) (split_dots-dotted b c q ∙ ap (λ w. b ∷ w) (split_dots-dotless c r))

judge-valid :
    (held : Claims) (now : Time)
    → validate_claims held ≡ none
    → judge held now ≡ (held, (if claims_expired held now then some err_token_expired else none))
unfolding judge
judge-valid held now v = elim (Bool-cases (claims_expired held now)) [
  | inl t ↦ rw (v, t, judge) refl
  | inr t ↦ rw (v, t, judge) refl
]

has_mac-own :
    (codec : Codec) (secret signing_input presented : Text)
    → codec.decode_mac presented ≡ some (codec.mac secret signing_input)
    → has_mac codec secret signing_input presented ≡ true
unfolding has_mac
has_mac-own codec secret signing_input presented m =
    rw (m, has_mac) (text_eq_refl (codec.mac secret signing_input))

verify_segments-own :
    (codec : Codec) (secret first payload third : Text) (held : Claims) (now : Time)
    → codec.decode_header first ≡ some envelope
    → codec.decode_mac third ≡ some (codec.mac secret (dotted first payload))
    → codec.decode_claims payload ≡ some held
    → validate_claims held ≡ none
    → verify_segments codec secret first payload third now
      ≡ (held, (if claims_expired held now then some err_token_expired else none))
unfolding verify_segments Text-discrete
verify_segments-own codec secret first payload third held now h m c v =
    let matched = has_mac-own codec secret (dotted first payload) third m in
    rw (h, matched, c, verify_segments) (judge-valid held now v)

expiry_told :
    (held : Claims) (now : Time)
    → (if claims_expired held now then some err_token_expired else none)
      ≡ (if before now (unix_time held.expires_at) then none else some err_token_expired)
unfolding claims_expired
expiry_told held now = elim (Bool-cases (before now (unix_time held.expires_at))) [
  | inl t ↦ rw t refl
  | inr t ↦ rw t refl
]

-- Where the libraries read back what they write of plain claims, a token for such claims that was
-- signed without an error verifies under the same key to the claims it was signed for, with no error
-- before the instant of their expiry and with the error of an expired token from that instant on.
pub verify-sign :
    (codec : Codec) (secret : Text) (held : Claims) (now : Time)
    → IsCodec codec
    → IsPlain held
    → (sign codec secret held).1 ≡ none
    → verify codec secret (sign codec secret held).0 now
      ≡ (held, (if before now (unix_time held.expires_at) then none else some err_token_expired))
unfolding verify signature
verify-sign codec secret held now laws plain ok =
    let signed = sign-Signed codec secret held ok in
    let h = laws.header_back signed.first signed.header in
    let c = laws.claims_back held signed.payload plain signed.claimed in
    let m = laws.mac_back (codec.mac secret (dotted signed.first signed.payload)) in
    let parts : split_dots (sign codec secret held).0
        ≡ signed.first
          ∷ signed.payload
          ∷ signature codec secret (dotted signed.first signed.payload)
          ∷ [] =
      ap split_dots signed.written ∙ split-signed signed.first signed.payload _ h.1 c.1 m.1 in
    rw (parts, verify)
      (verify_segments-own codec secret signed.first signed.payload _ held now h.0 m.0 c.0
          signed.valid
        ∙ ap (λ err. (held, err)) (expiry_told held now))
