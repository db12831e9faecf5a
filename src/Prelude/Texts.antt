-- ===== src/Prelude/Texts.antt =====
-- Go strings as their bytes. Comparison with `==` is a decision, so a proof gets the equation.
use Prim.Native.Nat.{ℕ}
use Prim.Native.Char.{code}
use Prim.Native.String.{String}
use mathlib.Core.Path.{◌≡◌, refl}
use mathlib.Core.Logic.{◌≢◌, ◌⊎◌, inl, inr}
use mathlib.Core.Bool.{Bool, true, false}
use mathlib.Core.List.{List, [], ◌∷◌}
use native.Mathlib.Decide.{ℕ_discrete}
use native.Mathlib.Omega.{arith}
use ottodot_trial_booking_se.Prelude.Tests.{ltb, if◌then◌else◌}

abbrev pub Text : Type 0
Text = List ℕ

-- The bytes of an ASCII literal.
abbrev pub codes : String → Text
codes String.[] = []
codes (String.◌∷◌ c s) = code c ∷ codes s

unfoldable pub Text-discrete : Discrete Text
unfolding ℕ_discrete
Text-discrete = hlevel ℕ_discrete

abbrev pub text_eq : Text → Text → Bool
text_eq a b = elim (Text-discrete a b) [ yes e ↦ true | no n ↦ false ]

-- `s == ""`
abbrev pub is_empty : Text → Bool
is_empty [] = true
is_empty (c ∷ s) = false

-- Go's `<` on strings: bytewise.
unfoldable pub text_ltb : Text → Text → Bool
text_ltb [] [] = false
text_ltb [] (d ∷ t) = true
text_ltb (c ∷ s) [] = false
text_ltb (c ∷ s) (d ∷ t) = if ltb c d then true else if ltb d c then false else text_ltb s t

pub text_eq_refl : (a : Text) → text_eq a a ≡ true
text_eq_refl a = ground arith

-- A string is empty exactly when it is the empty text.
pub is_empty→eq : (s : Text) → is_empty s ≡ true → s ≡ []
is_empty→eq s h = ground arith

-- A split on a comparison that keeps the test and the equation.
pub text_cases : (a b : Text) → ((text_eq a b ≡ true) × (a ≡ b)) ⊎ ((text_eq a b ≡ false) × (a ≢ b))
text_cases a b =
    elim (Text-discrete a b)
      as (λ d.
        ((elim d [ yes e ↦ true | no n ↦ false ]) ≡ true) × (a ≡ b)
        ⊎ ((elim d [ yes e ↦ true | no n ↦ false ]) ≡ false) × (a ≢ b)) [
          | yes e ↦ inl (refl, e)
          | no n ↦ inr (refl, n)
        ]

pub ne_of_text_eq : (a b : Text) → text_eq a b ≡ false → a ≢ b
ne_of_text_eq a b h e = ground arith
