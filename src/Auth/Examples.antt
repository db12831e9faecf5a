-- ===== src/Auth/Examples.antt =====
-- Runs of the sessions on concrete inputs, with small stand-ins for the libraries.
use ottodot_trial_booking_se.Prelude.{
  before, Bool, Bool-cases, Text, Text-discrete, [], ap, arith, codes, eq_ℤ, eq_ℤ→eq, if◌then◌else◌,
  inl, inr, map, none, pos, refl, some, some-injective, subst, sym, text_eq, true, ◌&&◌, ◌++◌, ◌+◌,
  ◌-◌, ◌∷◌, ◌≡◌,
}
use ottodot_trial_booking_se.Auth.Jwt.{
  has_mac, judge, signature, verify_segments, Codec, envelope, sign, verify,
}
use ottodot_trial_booking_se.Auth.Jwt.Laws.{IsPlain, IsCodec, verify-sign}
use ottodot_trial_booking_se.Auth.Jwt.Authentic.{IsAuthentic, verify-IsAuthentic}
use ottodot_trial_booking_se.Auth.Jwt.Dots.{split_dots, IsDotless}
use ottodot_trial_booking_se.Auth.Claims.{
  unix_time, Claims, claims_expired, validate_claims, role_parent, type_access, is_known_role,
}
use ottodot_trial_booking_se.Auth.Errors.{err_token_expired}

abbrev sample : Claims
sample = record {
  subject = codes "p";
  role = role_parent;
  token_type = type_access;
  token_id = codes "j";
  issued_at = pos 100;
  expires_at = pos 1000;
}

abbrev same_claims : Claims → Claims → Bool
same_claims a b =
    text_eq a.subject b.subject
    && (text_eq a.role b.role
        && (text_eq a.token_type b.token_type
            && (text_eq a.token_id b.token_id
                && (eq_ℤ a.issued_at b.issued_at && eq_ℤ a.expires_at b.expires_at))))

same_claims→eq : (a b : Claims) → same_claims a b ≡ true → a ≡ b
same_claims→eq a b h =
    let s : a.subject ≡ b.subject = ground arith in
    let r : a.role ≡ b.role = ground arith in
    let t : a.token_type ≡ b.token_type = ground arith in
    let j : a.token_id ≡ b.token_id = ground arith in
    let i : a.issued_at ≡ b.issued_at = eq_ℤ→eq a.issued_at b.issued_at (ground arith) in
    let e : a.expires_at ≡ b.expires_at = eq_ℤ→eq a.expires_at b.expires_at (ground arith) in
    λ k. record {
      subject = s k;
      role = r k;
      token_type = t k;
      token_id = j k;
      issued_at = i k;
      expires_at = e k;
    }

-- It writes the sample claims alone, and shifts the bytes of a MAC above the dot.
abbrev tiny : Codec
tiny = record {
  encode_header = λ header. some (codes "h");
  decode_header = λ text. some envelope;
  encode_claims = λ held. if same_claims held sample then some (codes "c") else none;
  decode_claims = λ text. some sample;
  mac = λ secret input. secret ++ input;
  encode_mac = map (λ c. c + 47);
  decode_mac = λ text. some (map (λ c. c - 47) text);
}

unshift : (digest : Text) → map (λ c. c - 47) (map (λ c. c + 47) digest) ≡ digest
unshift [] = refl
unshift (c ∷ digest) = let here : c + 47 - 47 ≡ c = omega arith in rw (here, unshift digest) refl

shift-IsDotless : (digest : Text) → IsDotless (map (λ c. c + 47) digest)
shift-IsDotless [] = tt
shift-IsDotless (c ∷ digest) = (ground arith, shift-IsDotless digest)

tiny_claims_back :
    (held : Claims) (text : Text)
    → IsPlain held
    → tiny.encode_claims held ≡ some text
    → (tiny.decode_claims text ≡ some held) × IsDotless text
tiny_claims_back held text plain = elim (Bool-cases (same_claims held sample)) [
  | inr t ↦ rw t (λ e. absurd cc)
  | inl t ↦ rw t (λ e.
      let same : codes "c" ≡ text = some-injective _ text e in
      (ap (λ x. some x) (sym (same_claims→eq held sample t)), subst IsDotless same (refl, tt)))
]

tiny-IsCodec : IsCodec tiny
tiny-IsCodec = record {
  header_back = λ text e. (refl, subst IsDotless (some-injective (codes "h") text e) (refl, tt));
  claims_back = tiny_claims_back;
  mac_back = λ digest. (ap (λ x. some x) (unshift digest), shift-IsDotless digest);
}

verify-sign_example :
    verify tiny (codes "k") (sign tiny (codes "k") sample).0 5
    ≡ (sample, (if before 5 (unix_time sample.expires_at) then none else some err_token_expired))
unfolding sign validate_claims is_known_role Text-discrete
verify-sign_example =
    verify-sign tiny (codes "k") sample 5 tiny-IsCodec
      (record {
        subject = (omega arith, tt);
        role = (
          omega arith,
          (omega arith, (omega arith, (omega arith, (omega arith, (omega arith, tt))))),
        );
        token_type = (
          omega arith,
          (omega arith, (omega arith, (omega arith, (omega arith, (omega arith, tt))))),
        );
        token_id = (omega arith, tt);
        issued_at = (omega arith, omega arith);
        expires_at = (omega arith, omega arith);
      })
      refl

verify-IsAuthentic_example :
    IsAuthentic tiny
      (codes "k")
      (sign tiny (codes "k") sample).0
      (verify tiny (codes "k") (sign tiny (codes "k") sample).0 5).0
      5
unfolding sign verify signature split_dots verify_segments judge has_mac validate_claims
    is_known_role Text-discrete claims_expired unix_time
verify-IsAuthentic_example =
    verify-IsAuthentic tiny (codes "k") (sign tiny (codes "k") sample).0 5 refl
