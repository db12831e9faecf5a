-- ===== src/Faults/Bound.antt =====
-- registry.go: how often a fault that was armed once can fire, and until when.
use ottodot_trial_booking_se.Prelude.{
  IsKeyed, lookup_absent, All, Bool, Bool-cases, List, Text, Time, [], false, if◌then◌else◌, inl,
  inr, lookup, pos, select, some, subst, suc, text_cases, text_eq, ℕ, ◌∷◌, ◌≡◌, ◌≢◌, ◌≤ℤ◌,
}
use ottodot_trial_booking_se.Faults.{Registry, Live, ArmRequest, arm, trigger, list_armed, disarm}

-- A call by anybody, with the clock that it reads.
pub data Call : Type 0 where
  arms : ArmRequest → Time → Call
  triggers : Text → Time → Call
  lists : Time → Call
  disarms : Call

unfoldable pub step : Registry → Call → Registry
step registry (arms request now) = (arm registry request now).0
step registry (triggers point now) = (trigger registry point now).0
step registry (lists now) = (list_armed registry now).0
step registry disarms = disarm registry

-- The fault at the point fires in this call.
abbrev pub fires_now : Text → Registry → Call → Bool
fires_now point registry (triggers asked now) =
    if text_eq asked point then (trigger registry asked now).1 else false
fires_now point registry _ = false

-- How often it fires in the calls, from an instant on.
unfoldable pub fires : Text → Registry → List Call → ℕ
fires point registry [] = 0
fires point registry (call ∷ calls) =
    let rest = fires point (step registry call) calls in
    if fires_now point registry call then suc rest else rest

-- Nobody arms the point again.
abbrev pub IsForeign : Text → Call → Type 0
IsForeign point (arms request now) = request.point ≢ point
IsForeign point _ = Unit

-- The point has at most so many counts left, if it is armed at all.
abbrev pub Within : Text → ℕ → Registry → Type 0
Within point n registry =
    (live : Live)
    → lookup point registry ≡ some live
    → (pos 1 ≤ℤ live.remaining) × (live.remaining ≤ℤ pos n)

-- A selection finds nothing that the list did not.
pub lookup-select :
    (p : Text × Live → Bool) (k : Text) (m : Registry) (live : Live)
    → IsKeyed m
    → lookup k (select p m) ≡ some live
    → lookup k m ≡ some live
unfolding lookup
lookup-select p k [] live h e = e
lookup-select p k ((j, v) ∷ m) live h e = elim (Bool-cases (p (j, v))) [
  | inl q ↦
      let e' : lookup k ((j, v) ∷ select p m) ≡ some live = rw q at e in
      elim (text_cases j k) [
        | inl (t, same) ↦ let here : some v ≡ some live = rw t at e' in rw t here
        | inr (t, away) ↦
            let there : lookup k (select p m) ≡ some live = rw t at e' in
            rw t (lookup-select p k m live h.1 there)
      ]
  | inr q ↦
      let e' : lookup k (select p m) ≡ some live = rw q at e in
      let found = lookup-select p k m live h.1 e' in
      elim (text_cases j k) [
        | inl (t, same) ↦
            let gone = lookup_absent k m (subst (λ i. All (λ r. i ≢ r.0) m) same h.0) in absurd cc
        | inr (t, away) ↦ rw t found
      ]
]
