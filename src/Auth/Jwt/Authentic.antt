-- ===== src/Auth/Jwt/Authentic.antt =====
-- jwt.go: what a token that is accepted must be.
use ottodot_trial_booking_se.Payment.Provider.{answer}
use ottodot_trial_booking_se.Prelude.{
  Bool-cases, List, Option, arith, false, not, sym, true, Option-cases, Text, Time, [], ap, inl,
  inr, none, refl, some, ◌∷◌, ◌≡◌,
}
use ottodot_trial_booking_se.Auth.Jwt.{
  Codec, verify, verify_segments, verify_split, judge, has_mac, is_envelope,
}
use ottodot_trial_booking_se.Auth.Jwt.Dots.{split_dots, dotted, join-split, join_dots}
use ottodot_trial_booking_se.Auth.Claims.{Claims, validate_claims, claims_expired}
use ottodot_trial_booking_se.Auth.Errors.{Error}

-- What an accepted token is: three segments of which the last holds the MAC of the first two under
-- the key, and the second the claims, which pass their check and are not expired.
abbrev pub IsAuthentic : Codec → Text → Text → Claims → Time → Type 0
IsAuthentic codec secret token held now =
    (first : Text) × (payload : Text) × (third : Text) × (token
      ≡ dotted first (dotted payload third))
    × (codec.decode_mac third ≡ some (codec.mac secret (dotted first payload)))
    × (codec.decode_claims payload ≡ some held)
    × (validate_claims held ≡ none)
    × (claims_expired held now ≡ false)

judge-accepts :
    (held : Claims) (now : Time)
    → (judge held now).1 ≡ none
    → ((judge held now).0 ≡ held)
      × (validate_claims held ≡ none)
      × (claims_expired held now ≡ false)
unfolding judge
judge-accepts held now = elim (Option-cases (validate_claims held)) [
  | inr (err, v) ↦ rw (v, judge) (λ e. absurd cc)
  | inl v ↦
      rw (v, judge)
        (elim (Bool-cases (claims_expired held now)) [
          | inl t ↦ rw t (λ e. absurd cc)
          | inr t ↦ rw t (λ e. (refl, refl, refl))
        ])
]

has_mac-true :
    (codec : Codec) (secret signing_input presented : Text)
    → has_mac codec secret signing_input presented ≡ true
    → codec.decode_mac presented ≡ some (codec.mac secret signing_input)
unfolding has_mac
has_mac-true codec secret signing_input presented =
    elim (Option-cases (codec.decode_mac presented)) [
      | inl m ↦ rw (m, has_mac) (λ e. absurd cc)
      | inr (expected, m) ↦
          rw (m, has_mac)
            (λ e.
              let same : expected ≡ codec.mac secret signing_input = ground arith in
              ap (λ x. some x) same)
    ]

abbrev Accepts : Codec → Text → Text → Text → Text → Time → Claims × Option Error → Type 0
Accepts codec secret first payload third now answer =
    answer.1 ≡ none
    → (codec.decode_mac third ≡ some (codec.mac secret (dotted first payload)))
      × (codec.decode_claims payload ≡ some answer.0)
      × (validate_claims answer.0 ≡ none)
      × (claims_expired answer.0 now ≡ false)

verify_segments-Accepts :
    (codec : Codec) (secret first payload third : Text) (now : Time)
    → Accepts codec secret first payload third now
        (verify_segments codec secret first payload third now)
unfolding verify_segments
verify_segments-Accepts codec secret first payload third now =
    elim (Option-cases (codec.decode_header first)) [
      | inl h ↦ rw (h, verify_segments) (λ e. absurd cc)
      | inr (header, h) ↦
          rw (h, verify_segments)
            (elim (Bool-cases (not (is_envelope header))) [
              | inl n ↦ rw n (λ e. absurd cc)
              | inr n ↦
                  rw n (elim (Bool-cases (has_mac codec secret (dotted first payload) third)) [
                    | inr m ↦ rw m (λ e. absurd cc)
                    | inl m ↦ rw m (elim (Option-cases (codec.decode_claims payload)) [
                      | inl c ↦ rw c (λ e. absurd cc)
                      | inr (held, c) ↦ rw c (λ e.
                          let (same, valid, fresh) = judge-accepts held now e in
                          (
                            has_mac-true codec secret (dotted first payload) third m,
                            ap (λ x. some x) (sym same),
                            rw same valid,
                            rw same fresh,
                          ))
                    ])
                  ])
            ])
    ]

verify_split-three :
    (codec : Codec) (secret token : Text) (now : Time) (parts : List Text)
    → join_dots parts ≡ token
    → (verify_split codec secret parts now).1 ≡ none
    → IsAuthentic codec secret token (verify_split codec secret parts now).0 now
verify_split-three codec secret token now [] whole ok = absurd cc
verify_split-three codec secret token now (a ∷ []) whole ok = absurd cc
verify_split-three codec secret token now (a ∷ b ∷ []) whole ok = absurd cc
verify_split-three codec secret token now (a ∷ b ∷ c ∷ d ∷ rest) whole ok = absurd cc
verify_split-three codec secret token now (a ∷ b ∷ c ∷ []) whole ok =
    let (m, claimed, valid, fresh) = verify_segments-Accepts codec secret a b c now ok in
    (a, b, c, sym whole, m, claimed, valid, fresh)

-- A token that is verified without an error is authentic: its last segment decodes to the MAC of
-- what stands before it under the key, and the claims that are answered are those of its second
-- segment, pass their check and are not expired.
pub verify-IsAuthentic :
    (codec : Codec) (secret token : Text) (now : Time)
    → (verify codec secret token now).1 ≡ none
    → IsAuthentic codec secret token (verify codec secret token now).0 now
unfolding verify
verify-IsAuthentic codec secret token now =
    verify_split-three codec secret token now (split_dots token) (join-split token)
