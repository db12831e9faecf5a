-- ===== src/Queue/Payload.antt =====
-- backend/internal/queue/payload.go: the payload of both kinds of job. The JSON library's Marshal and
-- Unmarshal of the one-field object are parameters: `marshal` answers the text for a booking, and
-- `unmarshal` the booking that a text names, which is empty where the field is missing.
use ottodot_trial_booking_se.Prelude.{
  ap, false, ◌∷◌, Bool-cases, Option-cases, [], inl, inr, refl, ◌≡◌, Option, Text, none, some,
  is_empty, if◌then◌else◌,
}
use ottodot_trial_booking_se.Queue.Model.{Error, err_invalid_request, err_invalid_payload}

pub data PayloadError : Type 0 where
  refused : Error → PayloadError
  unencoded : PayloadError

unfoldable pub encode_booking_payload : (Text → Option Text) → Text → Text × Option PayloadError
encode_booking_payload marshal booking_id =
    if is_empty booking_id
    then ([], some (refused err_invalid_request))
    else elim (marshal booking_id) [ none ↦ ([], some unencoded) | some payload ↦ (payload, none) ]

unfoldable pub decode_booking_payload : (Text → Option Text) → Text → Text × Option Error
decode_booking_payload unmarshal payload = elim (unmarshal payload) [
  | none ↦ ([], some err_invalid_payload)
  | some booking_id ↦
      if is_empty booking_id then ([], some err_invalid_payload) else (booking_id, none)
]

-- The booking of a payload that is accepted, as the two handlers read it.
abbrev accepted : Text × Option Error → Option Text
accepted (booking_id, none) = some booking_id
accepted (booking_id, some err) = none

abbrev pub decoded : (Text → Option Text) → Text → Option Text
decoded unmarshal payload = accepted (decode_booking_payload unmarshal payload)

-- Where Unmarshal reads back what Marshal wrote for the booking, a payload that was encoded without
-- an error decodes to the booking that it was encoded for.
pub decode-encode :
    (marshal unmarshal : Text → Option Text) (booking_id : Text)
    → ((payload : Text) → marshal booking_id ≡ some payload → unmarshal payload ≡ some booking_id)
    → (encode_booking_payload marshal booking_id).1 ≡ none
    → decode_booking_payload unmarshal (encode_booking_payload marshal booking_id).0
      ≡ (booking_id, none)
unfolding encode_booking_payload
decode-encode marshal unmarshal booking_id back ok = elim (Bool-cases (is_empty booking_id)) [
  | inl t ↦ absurd (
      let e : (encode_booking_payload marshal booking_id).1 ≡ some (refused err_invalid_request) =
        rw (t, encode_booking_payload) refl in
      cc)
  | inr t ↦ elim (Option-cases (marshal booking_id)) [
    | inl m ↦ absurd (
        let e : (encode_booking_payload marshal booking_id).1 ≡ some unencoded =
          rw (t, m, encode_booking_payload) refl in
        cc)
    | inr (payload, m) ↦
        let e : (encode_booking_payload marshal booking_id).0 ≡ payload =
          rw (t, m, encode_booking_payload) refl in
        rw e (unfold decode_booking_payload in rw (back payload m, t, decode_booking_payload) refl)
  ]
]

pub decoded-encode :
    (marshal unmarshal : Text → Option Text) (booking_id : Text)
    → ((payload : Text) → marshal booking_id ≡ some payload → unmarshal payload ≡ some booking_id)
    → (encode_booking_payload marshal booking_id).1 ≡ none
    → decoded unmarshal (encode_booking_payload marshal booking_id).0 ≡ some booking_id
decoded-encode marshal unmarshal booking_id back ok =
    ap accepted (decode-encode marshal unmarshal booking_id back ok)

-- Only a booking that is named is encoded.
pub encode-named :
    (marshal : Text → Option Text) (booking_id : Text)
    → (encode_booking_payload marshal booking_id).1 ≡ none
    → is_empty booking_id ≡ false
unfolding encode_booking_payload
encode-named marshal [] ok = absurd cc
encode-named marshal (c ∷ s) ok = refl
