-- ===== src/Auth/Jwt/Dots.antt =====
-- jwt.go: the dots between the segments of a token (`strings.Split(token, ".")`).
use ottodot_trial_booking_se.Prelude.{
  All, Bool-cases, List, Text, [], ap, arith, false, if◌then◌else◌, inl, inr, refl, ℕ, ◌++◌, ◌==◌,
  ◌∙◌, ◌∷◌, ◌≡◌,
}

abbrev pub prepend : ℕ → List Text → List Text
prepend c [] = (c ∷ []) ∷ []
prepend c (first ∷ rest) = (c ∷ first) ∷ rest

unfoldable pub split_dots : Text → List Text
split_dots [] = [] ∷ []
split_dots (c ∷ s) = let rest = split_dots s in if c == b'.' then [] ∷ rest else prepend c rest

-- `a + "." + b`
abbrev pub dotted : Text → Text → Text
dotted a b = a ++ b'.' ∷ b

-- A segment holds no dot.
abbrev pub IsDotless : Text → Type 0
IsDotless = All (λ c. (c == b'.') ≡ false)

pub split_dots-dotless : (a : Text) → IsDotless a → split_dots a ≡ a ∷ []
unfolding split_dots
split_dots-dotless [] h = refl
split_dots-dotless (c ∷ a) h = let rest = split_dots-dotless a h.1 in rw (h.0, rest) refl

pub split_dots-dotted : (a b : Text) → IsDotless a → split_dots (dotted a b) ≡ a ∷ split_dots b
unfolding split_dots
split_dots-dotted [] b h = refl
split_dots-dotted (c ∷ a) b h = let rest = split_dots-dotted a b h.1 in rw (h.0, rest) refl

-- The segments put together again.
abbrev pub join_dots : List Text → Text
join_dots [] = []
join_dots (a ∷ []) = a
join_dots (a ∷ b ∷ rest) = dotted a (join_dots (b ∷ rest))

prepend-join : (c : ℕ) (parts : List Text) → join_dots (prepend c parts) ≡ c ∷ join_dots parts
prepend-join c [] = refl
prepend-join c (a ∷ []) = refl
prepend-join c (a ∷ b ∷ rest) = refl

split_some : (s : Text) → (first : Text) × (rest : List Text) × (split_dots s ≡ first ∷ rest)
unfolding split_dots
split_some [] = ([], [], refl)
split_some (c ∷ s) =
    let (first, rest, e) = split_some s in
    elim (Bool-cases (c == b'.')) [
      | inl t ↦ ([], split_dots s, rw t refl)
      | inr t ↦ (c ∷ first, rest, rw (t, e) refl)
    ]

pub join-split : (s : Text) → join_dots (split_dots s) ≡ s
unfolding split_dots
join-split [] = refl
join-split (c ∷ s) = elim (Bool-cases (c == b'.')) [
  | inl t ↦
      let (first, rest, e) = split_some s in
      let whole : join_dots (first ∷ rest) ≡ s = rw⁻¹ e (join-split s) in
      let dot : c ≡ b'.' = ground arith in rw (t, e) (ap (λ w. b'.' ∷ w) whole ∙ rw dot refl)
  | inr t ↦ rw t (prepend-join c (split_dots s) ∙ ap (λ w. c ∷ w) (join-split s))
]
