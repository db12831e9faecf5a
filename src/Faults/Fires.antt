-- ===== src/Faults/Fires.antt =====
-- registry.go: a fault fires at most as often as it was armed for.
use ottodot_trial_booking_se.Faults.Steps.{Left, arm-Within, elsewhere, step-IsKeyed, trigger-Left}
use ottodot_trial_booking_se.Prelude.{
  IsKeyed, insert-IsKeyed, Duration, if◌then◌else◌, insert, none, pos_part, text_cases, All, List,
  [], negsuc, ◌∷◌, ◌≤◌, Bool-cases, Text, Time, arith, false, inl, inr, lookup, lookup-insert_self,
  not, pos, some-injective, subst, suc, sym, ℕ, ℤ, ◌∙◌, ◌≡◌, ◌≤ℤ◌,
}
use ottodot_trial_booking_se.Faults.{
  Registry, Live, ArmRequest, arm, armed_of, trigger, list_armed, disarm, or_default, default_count,
  default_lifetime, is_standing, out_of_bounds, is_known_point, max_count,
}
use ottodot_trial_booking_se.Faults.Bound.{
  Call, arms, triggers, lists, disarms, step, fires, IsForeign, Within, lookup-select,
}

fires_step :
    (registry : Registry) (asked point : Text) (now : Time) (n k : ℕ)
    → Left point n (trigger registry asked now)
    → ((m : ℕ) → Within point m (trigger registry asked now).0 → k ≤ m)
    → (if (trigger registry asked now).1 then suc k else k) ≤ n
fires_step registry asked point now n k left rest =
    elim (Bool-cases (trigger registry asked now).1) [
      | inl fired ↦ let (m, e, v) = left.1 fired in rw fired (omega (arith, e, rest m v))
      | inr quiet ↦ rw quiet (rest n (left.0 quiet))
    ]

-- From a registry with one row for each point, a fault whose point has at most n counts left fires at
-- most n times in any calls that do not arm that point again, whatever the clocks say.
pub fires_bounded :
    (registry : Registry) (calls : List Call) (point : Text) (n : ℕ)
    → IsKeyed registry
    → Within point n registry
    → All (IsForeign point) calls
    → fires point registry calls ≤ n
unfolding fires step disarm lookup
fires_bounded registry [] point n h w f = omega arith
fires_bounded registry (arms request now ∷ calls) point n h w f =
    fires_bounded (arm registry request now).0 calls point n
      (step-IsKeyed registry (arms request now) h) (arm-Within registry request now point n f.0 w)
      f.1
fires_bounded registry (lists now ∷ calls) point n h w f =
    fires_bounded (list_armed registry now).0 calls point n (step-IsKeyed registry (lists now) h)
      (unfold list_armed in
        (λ live found. w live (lookup-select (is_standing now) point registry live h found)))
      f.1
fires_bounded registry (disarms ∷ calls) point n h w f =
    fires_bounded (disarm registry) calls point n tt (λ live found. absurd cc) f.1
fires_bounded registry (triggers asked now ∷ calls) point n h w f =
    let keyed = step-IsKeyed registry (triggers asked now) h in
    let rest = λ (m : ℕ) (v : Within point m (trigger registry asked now).0).
      fires_bounded (trigger registry asked now).0 calls point m keyed v f.1 in
    elim (text_cases asked point) [
      | inr (t, away) ↦ rw t (rest n (elsewhere registry asked point now n away w))
      | inl (t, same) ↦ rw t (
          fires_step registry asked point now n (fires point (trigger registry asked now).0 calls)
            (subst (λ a. Left point n (trigger registry a now)) (sym same)
              (trigger-Left registry point now n h w))
            rest)
    ]

at_most_count :
    (k : ℕ) (count : ℤ)
    → pos 1 ≤ℤ count
    → count ≤ℤ max_count
    → k ≤ pos_part count
    → (pos k ≤ℤ count) × (k ≤ 10)
at_most_count k (pos c) low high bound = (omega arith, omega arith)
at_most_count k (negsuc c) low high bound = absurd (omega arith)

armed_count :
    (registry : Registry) (request : ArmRequest) (now : Time) (calls : List Call)
    → IsKeyed registry
    → out_of_bounds
        (or_default request.count default_count)
        (or_default request.lifetime default_lifetime)
      ≡ false
    → All (IsForeign request.point) calls
    → (pos (fires request.point (insert request.point (armed_of request now) registry) calls)
        ≤ℤ or_default request.count default_count)
      × (fires request.point (insert request.point (armed_of request now) registry) calls ≤ 10)
armed_count registry request now calls h b f =
    let count = or_default request.count default_count in
    let (low, high) = in_bounds count (or_default request.lifetime default_lifetime) b in
    let after = insert request.point (armed_of request now) registry in
    let stored = lookup-insert_self request.point (armed_of request now) registry in
    let w : Within request.point (pos_part count) after = (λ live there.
      let same : armed_of request now ≡ live = some-injective _ live (sym stored ∙ there) in
      subst (λ (l : Live). (pos 1 ≤ℤ l.remaining) × (l.remaining ≤ℤ pos (pos_part count))) same
        (unfold armed_of in (low, omega arith))) in
    let bound =
      fires_bounded after calls request.point (pos_part count)
        (insert-IsKeyed request.point (armed_of request now) registry h) w f in
    at_most_count _ count low high bound
  where
    in_bounds :
        (count : ℤ) (lifetime : Duration)
        → out_of_bounds count lifetime ≡ false
        → (pos 1 ≤ℤ count) × (count ≤ℤ max_count)
    in_bounds count lifetime b = (ground arith, ground arith)

-- From a registry with one row for each point: once a point was armed, it fires in any calls that do
-- not arm it again at most as often as the answer says remains, and never more than ten times.
pub armed_fires_at_most :
    (registry : Registry) (request : ArmRequest) (now : Time) (calls : List Call)
    → IsKeyed registry
    → (arm registry request now).2 ≡ none
    → All (IsForeign request.point) calls
    → (pos (fires request.point (arm registry request now).0 calls)
        ≤ℤ (arm registry request now).1.remaining)
      × (fires request.point (arm registry request now).0 calls ≤ 10)
unfolding arm armed_of
armed_fires_at_most registry request now calls h =
    elim (Bool-cases (not (is_known_point request.point))) [
      | inl t ↦ rw (t, arm) (λ e. absurd cc)
      | inr t ↦
          rw (t, arm)
            (elim (Bool-cases (
              out_of_bounds (or_default request.count default_count)
                (or_default request.lifetime default_lifetime))) [
                  | inl b ↦ rw (b, arm) (λ e. absurd cc)
                  | inr b ↦ rw (b, arm) (λ e f. armed_count registry request now calls h b f)
                ])
    ]
