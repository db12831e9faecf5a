-- ===== src/Faults/Steps.antt =====
-- registry.go: what each call of the registry leaves of the counts of a point.
use ottodot_trial_booking_se.Prelude.{
  IsKeyed, insert-IsKeyed, lookup-delete_ne, lookup-delete_self, negsuc, Bool, Bool-cases,
  Option-cases, Pairwise-select, Text, Time, arith, before, delete-Pairwise, false, inl, inr, leb_ℤ,
  lookup, lookup-insert_ne, lookup-insert_self, not, pos, some-injective, subst, suc, sym, true, ℕ,
  ℤ, ◌-ℤ◌, ◌-◌, ◌∙◌, ◌≡◌, ◌≢◌, ◌≤ℤ◌,
}
use ottodot_trial_booking_se.Faults.{
  Registry, Live, ArmRequest, arm, armed_of, trigger, count_down, list_armed, disarm, or_default,
  default_count, default_lifetime, is_standing, out_of_bounds, is_known_point,
}
use ottodot_trial_booking_se.Faults.Bound.{Call, arms, triggers, lists, disarms, step, Within}

arm-IsKeyed :
    (registry : Registry) (request : ArmRequest) (now : Time)
    → IsKeyed registry
    → IsKeyed (arm registry request now).0
unfolding arm
arm-IsKeyed registry request now h = elim (Bool-cases (not (is_known_point request.point))) [
  | inl t ↦ rw (t, arm) h
  | inr t ↦
      rw (t, arm)
        (elim (Bool-cases (
          out_of_bounds (or_default request.count default_count)
            (or_default request.lifetime default_lifetime))) [
              | inl b ↦ rw (b, arm) h
              | inr b ↦ rw (b, arm) (insert-IsKeyed request.point (armed_of request now) registry h)
            ])
]

trigger-IsKeyed :
    (registry : Registry) (point : Text) (now : Time)
    → IsKeyed registry
    → IsKeyed (trigger registry point now).0
unfolding trigger count_down
trigger-IsKeyed registry point now h = elim (Option-cases (lookup point registry)) [
  | inl e ↦ rw (e, trigger) h
  | inr (live, e) ↦
      rw (e, trigger)
        (elim (Bool-cases (not (before now live.expires_at))) [
          | inl t ↦ rw (t, trigger) (delete-Pairwise (λ a b. a.0 ≢ b.0) point registry h)
          | inr t ↦
              rw (t, trigger)
                (elim (Bool-cases (leb_ℤ (live.remaining -ℤ pos 1) (pos 0))) [
                  | inl l ↦ rw (l, count_down) (delete-Pairwise (λ a b. a.0 ≢ b.0) point registry h)
                  | inr l ↦ rw (l, count_down) (insert-IsKeyed point _ registry h)
                ])
        ])
]

pub step-IsKeyed :
    (registry : Registry) (call : Call) → IsKeyed registry → IsKeyed (step registry call)
unfolding step list_armed disarm
step-IsKeyed registry (arms request now) h = arm-IsKeyed registry request now h
step-IsKeyed registry (triggers point now) h = trigger-IsKeyed registry point now h
step-IsKeyed registry (lists now) h =
    Pairwise-select (λ a b. a.0 ≢ b.0) (is_standing now) registry h
step-IsKeyed registry disarms h = tt

one_less :
    (r : ℤ) (n m : ℕ)
    → r ≤ℤ pos n
    → n ≡ suc m
    → leb_ℤ (r -ℤ pos 1) (pos 0) ≡ false
    → (pos 1 ≤ℤ (r -ℤ pos 1)) × ((r -ℤ pos 1) ≤ℤ pos m)
unfolding ◌-ℤ◌
one_less (pos r) n m high e l = (ground arith, ground arith)
one_less (negsuc r) n m high e l = (ground arith, ground arith)

-- The counts that are left after a trigger: one less where the fault fired.
abbrev pub Left : Text → ℕ → Registry × Bool → Type 0
Left point n (registry, fired) =
    (fired ≡ false → Within point n registry)
    × (fired ≡ true → (m : ℕ) × (n ≡ suc m) × Within point m registry)

count_down-Within :
    (registry : Registry) (point : Text) (live : Live) (n m : ℕ)
    → IsKeyed registry
    → live.remaining ≤ℤ pos n
    → n ≡ suc m
    → Within point m (count_down registry point live)
unfolding count_down
count_down-Within registry point live n m h high e =
    elim (Bool-cases (leb_ℤ (live.remaining -ℤ pos 1) (pos 0))) [
      | inl l ↦
          rw (l, count_down)
            (λ found there. let gone = lookup-delete_self point registry h in absurd cc)
      | inr l ↦
          rw (l, count_down)
            (λ found there.
              let stored =
                lookup-insert_self point (record live { remaining = live.remaining -ℤ pos 1 })
                  registry in
              let same : record live { remaining = live.remaining -ℤ pos 1 } ≡ found =
                some-injective _ found (sym stored ∙ there) in
              subst (λ (f : Live). (pos 1 ≤ℤ f.remaining) × (f.remaining ≤ℤ pos m)) same
                (one_less live.remaining n m high e l))
    ]

pub trigger-Left :
    (registry : Registry) (point : Text) (now : Time) (n : ℕ)
    → IsKeyed registry
    → Within point n registry
    → Left point n (trigger registry point now)
unfolding trigger
trigger-Left registry point now n h w = elim (Option-cases (lookup point registry)) [
  | inl e ↦ rw (e, trigger) ((λ quiet. w), (λ fired. absurd cc))
  | inr (live, e) ↦
      rw (e, trigger)
        (elim (Bool-cases (not (before now live.expires_at))) [
          | inl t ↦
              rw (t, trigger)
                (
                  (λ quiet found there.
                      let gone = lookup-delete_self point registry h in absurd cc),
                  (λ fired. absurd cc),
                )
          | inr t ↦
              rw (t, trigger)
                (
                  (λ quiet. absurd cc),
                  (λ fired.
                      let (low, high) = w live e in
                      let some_left : n ≡ suc (n - 1) = one_of live.remaining n low high in
                      (
                        n - 1,
                        some_left,
                        count_down-Within registry point live n (n - 1) h high some_left,
                      )),
                )
        ])
]
  where
    one_of : (r : ℤ) (n : ℕ) → pos 1 ≤ℤ r → r ≤ℤ pos n → n ≡ suc (n - 1)
    one_of r n low high = omega arith

pub elsewhere :
    (registry : Registry) (asked point : Text) (now : Time) (n : ℕ)
    → asked ≢ point
    → Within point n registry
    → Within point n (trigger registry asked now).0
unfolding trigger count_down
elsewhere registry asked point now n away w = elim (Option-cases (lookup asked registry)) [
  | inl e ↦ rw (e, trigger) w
  | inr (live, e) ↦
      rw (e, trigger)
        (elim (Bool-cases (not (before now live.expires_at))) [
          | inl t ↦
              rw (t, trigger)
                (λ found there. w found (sym (lookup-delete_ne asked point registry away) ∙ there))
          | inr t ↦
              rw (t, trigger)
                (elim (Bool-cases (leb_ℤ (live.remaining -ℤ pos 1) (pos 0))) [
                  | inl l ↦
                      rw (l, count_down)
                        (λ found there.
                          w found (sym (lookup-delete_ne asked point registry away) ∙ there))
                  | inr l ↦
                      rw (l, count_down)
                        (λ found there.
                          w found (sym (lookup-insert_ne asked point _ registry away) ∙ there))
                ])
        ])
]

pub arm-Within :
    (registry : Registry) (request : ArmRequest) (now : Time) (point : Text) (n : ℕ)
    → request.point ≢ point
    → Within point n registry
    → Within point n (arm registry request now).0
unfolding arm
arm-Within registry request now point n away w =
    elim (Bool-cases (not (is_known_point request.point))) [
      | inl t ↦ rw (t, arm) w
      | inr t ↦
          rw (t, arm)
            (elim (Bool-cases (
              out_of_bounds (or_default request.count default_count)
                (or_default request.lifetime default_lifetime))) [
                  | inl b ↦ rw (b, arm) w
                  | inr b ↦
                      rw (b, arm)
                        (λ found there. w found (
                          sym (
                            lookup-insert_ne request.point point (armed_of request now) registry
                              away)
                          ∙ there))
                ])
    ]
