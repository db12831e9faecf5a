-- ===== src/Prelude/Lists.antt =====
-- Lists measured by native numbers, and predicates on lists by recursion.
use Prim.Native.Nat.{ℕ, zero, suc, ◌+◌, ◌≤◌}
use mathlib.Core.Path.{◌≡◌, refl, ap}
use mathlib.Core.Bool.{Bool, true, false}
use mathlib.Core.Logic.{inl, inr}
use mathlib.Core.List.{List, [], ◌∷◌, ◌++◌, map}
use native.Mathlib.Omega.{arith}
use ottodot_trial_booking_se.Prelude.Tests.{if◌then◌else◌, Bool-cases}

module _ {ℓ} {A : Type ℓ} where
  abbrev pub length : List A → ℕ
  length [] = 0
  length (x ∷ xs) = suc (length xs)

  abbrev pub take : ℕ → List A → List A
  take zero xs = []
  take (suc n) [] = []
  take (suc n) (x ∷ xs) = x ∷ take n xs

  -- `for range` with `continue` on a failed test.
  abbrev pub select : (A → Bool) → List A → List A
  select p [] = []
  select p (x ∷ xs) = if p x then x ∷ select p xs else select p xs

  abbrev pub any : (A → Bool) → List A → Bool
  any p [] = false
  any p (x ∷ xs) = if p x then true else any p xs

  -- How many elements pass a test.
  abbrev pub tally : (A → Bool) → List A → ℕ
  tally p [] = 0
  tally p (x ∷ xs) = if p x then suc (tally p xs) else tally p xs

  pub length-append : (xs ys : List A) → length (xs ++ ys) ≡ length xs + length ys
  length-append [] ys = omega arith
  length-append (x ∷ xs) ys = omega (arith, length-append xs ys)

  pub length-take-le : (n : ℕ) (xs : List A) → length (take n xs) ≤ n
  length-take-le zero xs = omega arith
  length-take-le (suc n) [] = omega arith
  length-take-le (suc n) (x ∷ xs) = omega (arith, length-take-le n xs)

  pub length-select : (p : A → Bool) (xs : List A) → length (select p xs) ≡ tally p xs
  length-select p [] = refl
  length-select p (x ∷ xs) = ground (arith, length-select p xs)

module _ {ℓ κ} {A : Type ℓ} where
  abbrev pub All : (A → Type κ) → List A → Type κ
  All P [] = Unit
  All P (x ∷ xs) = P x × All P xs

  abbrev pub Pairwise : (A → A → Type κ) → List A → Type κ
  Pairwise R [] = Unit
  Pairwise R (x ∷ xs) = All (R x) xs × Pairwise R xs

  pub All-map : (P Q : A → Type κ) (xs : List A) → ((x : A) → P x → Q x) → All P xs → All Q xs
  All-map P Q [] f h = tt
  All-map P Q (x ∷ xs) f h = (f x h.0, All-map P Q xs f h.1)

  pub All-zip :
      (P Q S : A → Type κ) (xs : List A)
      → ((x : A) → P x → Q x → S x)
      → All P xs
      → All Q xs
      → All S xs
  All-zip P Q S [] f h k = tt
  All-zip P Q S (x ∷ xs) f h k = (f x h.0 k.0, All-zip P Q S xs f h.1 k.1)

  pub All-append : (P : A → Type κ) (xs ys : List A) → All P xs → All P ys → All P (xs ++ ys)
  All-append P [] ys h k = k
  All-append P (x ∷ xs) ys h k = (h.0, All-append P xs ys h.1 k)

  pub All-take : (P : A → Type κ) (n : ℕ) (xs : List A) → All P xs → All P (take n xs)
  All-take P zero xs h = tt
  All-take P (suc n) [] h = tt
  All-take P (suc n) (x ∷ xs) h = (h.0, All-take P n xs h.1)

  pub Pairwise-take :
      (R : A → A → Type κ) (n : ℕ) (xs : List A) → Pairwise R xs → Pairwise R (take n xs)
  Pairwise-take R zero xs h = tt
  Pairwise-take R (suc n) [] h = tt
  Pairwise-take R (suc n) (x ∷ xs) h = (All-take (R x) n xs h.0, Pairwise-take R n xs h.1)

  -- What a selection keeps satisfies what the list did.
  pub All-select : (P : A → Type κ) (p : A → Bool) (xs : List A) → All P xs → All P (select p xs)
  All-select P p [] h = tt
  All-select P p (x ∷ xs) h =
      elim (p x) as (λ b. All P (if b then x ∷ select p xs else select p xs)) [
        | true ↦ (h.0, All-select P p xs h.1)
        | false ↦ All-select P p xs h.1
      ]

  pub Pairwise-select :
      (R : A → A → Type κ) (p : A → Bool) (xs : List A) → Pairwise R xs → Pairwise R (select p xs)
  Pairwise-select R p [] h = tt
  Pairwise-select R p (x ∷ xs) h =
      elim (p x) as (λ b. Pairwise R (if b then x ∷ select p xs else select p xs)) [
        | true ↦ (All-select (R x) p xs h.0, Pairwise-select R p xs h.1)
        | false ↦ Pairwise-select R p xs h.1
      ]

  -- What a selection keeps passed its test.
  pub All-select_test :
      (P : A → Type κ) (p : A → Bool) (xs : List A)
      → ((x : A) → p x ≡ true → P x)
      → All P (select p xs)
  All-select_test P p [] f = tt
  All-select_test P p (x ∷ xs) f = elim (Bool-cases (p x)) [
    | inl e ↦ rw e (f x e, All-select_test P p xs f)
    | inr e ↦ rw e (All-select_test P p xs f)
  ]

module _ {ℓ} {A : Type ℓ} where
  -- No element passes a test exactly when every element fails it.
  pub any-false : (p : A → Bool) (xs : List A) → any p xs ≡ false → All (λ x. p x ≡ false) xs
  any-false p [] h = tt
  any-false p (x ∷ xs) h = ground (arith, any-false p xs)

  pub All-any-false : (p : A → Bool) (xs : List A) → All (λ x. p x ≡ false) xs → any p xs ≡ false
  All-any-false p [] h = refl
  All-any-false p (x ∷ xs) h = ground (arith, All-any-false p xs h.1)

  pub tally-le-length : (p : A → Bool) (xs : List A) → tally p xs ≤ length xs
  tally-le-length p [] = omega arith
  tally-le-length p (x ∷ xs) = ground (arith, tally-le-length p xs)

module _ {ℓ} {A B : Type ℓ} where
  pub length-map : (f : A → B) (xs : List A) → length (map f xs) ≡ length xs
  length-map f [] = refl
  length-map f (x ∷ xs) = ap suc (length-map f xs)

module _ {ℓ κ} {A : Type ℓ} {B : Type ℓ} where
  pub All-of_map :
      (P : B → Type κ) (f : A → B) (xs : List A) → All P (map f xs) → All (λ x. P (f x)) xs
  All-of_map P f [] h = tt
  All-of_map P f (x ∷ xs) h = (h.0, All-of_map P f xs h.1)

  pub All-to_map :
      (P : B → Type κ) (f : A → B) (xs : List A) → All (λ x. P (f x)) xs → All P (map f xs)
  All-to_map P f [] h = tt
  All-to_map P f (x ∷ xs) h = (h.0, All-to_map P f xs h.1)

  pub Pairwise-map :
      (R : B → B → Type κ) (f : A → B) (xs : List A)
      → Pairwise (λ a b. R (f a) (f b)) xs
      → Pairwise R (map f xs)
  Pairwise-map R f [] h = tt
  Pairwise-map R f (x ∷ xs) h = (All-to_map (R (f x)) f xs h.0, Pairwise-map R f xs h.1)

module _ {ℓ κ} {A : Type ℓ} where
  pub Pairwise-impl :
      (R S : A → A → Type κ) (xs : List A)
      → ((a b : A) → R a b → S a b)
      → Pairwise R xs
      → Pairwise S xs
  Pairwise-impl R S [] f h = tt
  Pairwise-impl R S (x ∷ xs) f h = (All-map (R x) (S x) xs (f x) h.0, Pairwise-impl R S xs f h.1)

  -- A relation that holds between the elements that satisfy a predicate.
  pub Pairwise-among :
      (P : A → Type κ) (R S : A → A → Type κ) (xs : List A)
      → ((a b : A) → P a → P b → R a b → S a b)
      → All P xs
      → Pairwise R xs
      → Pairwise S xs
  Pairwise-among P R S [] f p h = tt
  Pairwise-among P R S (x ∷ xs) f p h =
      (All-zip P (R x) (S x) xs (λ b q r. f x b p.0 q r) p.1 h.0, Pairwise-among P R S xs f p.1 h.1)

  -- A selection keeps what failed nowhere.
  pub All-unselect :
      (P : A → Type κ) (p : A → Bool) (xs : List A)
      → ((x : A) → p x ≡ false → P x)
      → All P (select p xs)
      → All P xs
  All-unselect P p [] f h = tt
  All-unselect P p (x ∷ xs) f h = elim (Bool-cases (p x)) [
    | inl e ↦ let k : All P (x ∷ select p xs) = rw e at h in (k.0, All-unselect P p xs f k.1)
    | inr e ↦ let k : All P (select p xs) = rw e at h in (f x e, All-unselect P p xs f k)
  ]

module _ {ℓ κ} {A : Type ℓ} where
  pub All-pure : (P : A → Type κ) (xs : List A) → ((x : A) → P x) → All P xs
  All-pure P [] f = tt
  All-pure P (x ∷ xs) f = (f x, All-pure P xs f)
