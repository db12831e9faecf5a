-- ===== src/Prelude/Keys.antt =====
-- Association lists with one row for each key.
use mathlib.Core.Path.{◌≡◌, refl, sym, subst}
use mathlib.Core.Logic.{◌≢◌, inl, inr}
use mathlib.Core.Option.{none}
use mathlib.Core.List.{List, [], ◌∷◌}
use native.Mathlib.Omega.{arith}
use ottodot_trial_booking_se.Prelude.Texts.{Text, text_cases}
use ottodot_trial_booking_se.Prelude.Lists.{All, All-pure, Pairwise}
use ottodot_trial_booking_se.Prelude.Assoc.{
  lookup, insert, delete, insert-Pairwise, delete-Pairwise,
}

module _ {ℓ} {V : Type ℓ} where
  abbrev pub IsKeyed : List (Text × V) → Type 0
  IsKeyed = Pairwise (λ a b. a.0 ≢ b.0)

  same_keys : (a b : Text × V) → a.0 ≢ b.0 → a.0 ≢ b.0
  same_keys a b h = h

  pub insert-IsKeyed : (k : Text) (v : V) (m : List (Text × V)) → IsKeyed m → IsKeyed (insert k v m)
  insert-IsKeyed k v m h =
      insert-Pairwise (λ a b. a.0 ≢ b.0) k v m same_keys (λ a b n e. n (sym e)) h
        (All-pure _ m (λ r n e. n (sym e)))

  pub delete-IsKeyed : (k : Text) (m : List (Text × V)) → IsKeyed m → IsKeyed (delete k m)
  delete-IsKeyed k m h = delete-Pairwise (λ a b. a.0 ≢ b.0) k m h

  pub lookup_absent : (k : Text) (m : List (Text × V)) → All (λ r. k ≢ r.0) m → lookup k m ≡ none
  unfolding lookup
  lookup_absent k [] h = refl
  lookup_absent k ((j, v) ∷ m) h = ground (arith, lookup_absent k m h.1)

  pub lookup-delete_self :
      (k : Text) (m : List (Text × V)) → IsKeyed m → lookup k (delete k m) ≡ none
  unfolding lookup delete
  lookup-delete_self k [] h = refl
  lookup-delete_self k ((j, v) ∷ m) h = elim (text_cases j k) [
    | inl (t, same) ↦ rw t (lookup_absent k m (subst (λ i. All (λ r. i ≢ r.0) m) same h.0))
    | inr (t, away) ↦ rw t (rw t (lookup-delete_self k m h.1))
  ]

  pub lookup-delete_ne :
      (j k : Text) (m : List (Text × V)) → j ≢ k → lookup k (delete j m) ≡ lookup k m
  unfolding lookup delete
  lookup-delete_ne j k [] n = refl
  lookup-delete_ne j k ((i, v) ∷ m) n = ground (arith, lookup-delete_ne j k m n)
