-- ===== src/Prelude/Counting.antt =====
-- How many different numbers fit into 1..n, and how many it takes to fill it.
use Prim.Native.Nat.{ℕ, zero, suc, ◌≤◌}
use mathlib.Core.Path.{◌≡◌, refl}
use mathlib.Core.Bool.{true, false, not}
use mathlib.Core.Logic.{inl, inr}
use mathlib.Core.List.{List, [], ◌∷◌}
use native.Mathlib.Omega.{arith}
use ottodot_trial_booking_se.Prelude.Tests.{Bool-cases}
use ottodot_trial_booking_se.Prelude.Lists.{
  All, Pairwise, length, any, select, All-select, Pairwise-select, All-zip, All-select_test,
}
use ottodot_trial_booking_se.Prelude.Int.{ℤ, pos, negsuc, ◌≤ℤ◌, eq_ℤ, eq_ℤ→eq}

-- A predicate of every number from 1 up to a bound.
abbrev pub Upto {κ} : (ℕ → Type κ) → ℕ → Type κ
Upto P zero = Unit
Upto P (suc n) = P (suc n) × Upto P n

pub Upto-map {κ} : (P Q : ℕ → Type κ) (n : ℕ) → ((m : ℕ) → P m → Q m) → Upto P n → Upto Q n
Upto-map P Q zero f h = tt
Upto-map P Q (suc n) f h = (f (suc n) h.0, Upto-map P Q n f h.1)

abbrev others : ℤ → List ℤ → List ℤ
others x = select (λ y. not (eq_ℤ x y))

abbrev IsDistinct : List ℤ → Type 0
IsDistinct = Pairwise (λ a b. eq_ℤ a b ≡ false)

abbrev IsWithin : ℕ → ℤ → Type 0
IsWithin n x = (pos 1 ≤ℤ x) × (x ≤ℤ pos n)

-- Nothing is lost where the number is not in the list.
length-others_absent :
    (x : ℤ) (xs : List ℤ) → All (λ y. eq_ℤ x y ≡ false) xs → length (others x xs) ≡ length xs
length-others_absent x [] h = refl
length-others_absent x (y ∷ ys) h = ground (arith, length-others_absent x ys h.1)

-- At most one element is lost from a list without duplicates.
length-others_distinct :
    (x : ℤ) (xs : List ℤ) → IsDistinct xs → length xs ≤ suc (length (others x xs))
length-others_distinct x [] h = omega arith
length-others_distinct x (y ∷ ys) h = elim (Bool-cases (eq_ℤ x y)) [
  | inl e ↦ rw e (omega (arith, length-others_absent x ys (rw (eq_ℤ→eq x y e) h.0)))
  | inr e ↦ rw e (omega (arith, length-others_distinct x ys h.1))
]

IsWithin-others :
    (n : ℕ) (xs : List ℤ) → All (IsWithin (suc n)) xs → All (IsWithin n) (others (pos (suc n)) xs)
IsWithin-others n xs h =
    All-zip (IsWithin (suc n)) (λ y. not (eq_ℤ (pos (suc n)) y) ≡ true) (IsWithin n)
      (others (pos (suc n)) xs) (λ y w t. shrink n y w t) (All-select (IsWithin (suc n)) _ xs h)
      (All-select_test (λ y. not (eq_ℤ (pos (suc n)) y) ≡ true) _ xs (λ y t. t))
  where
    shrink : (n : ℕ) (y : ℤ) → IsWithin (suc n) y → not (eq_ℤ (pos (suc n)) y) ≡ true → IsWithin n y
    shrink n (pos y) w t = ground arith
    shrink n (negsuc y) w t = ground arith

-- Distinct numbers from 1..n are at most n.
pub length-le_of_within :
    (n : ℕ) (xs : List ℤ) → IsDistinct xs → All (IsWithin n) xs → length xs ≤ n
length-le_of_within zero [] d w = omega arith
length-le_of_within zero (x ∷ xs) d w = absurd (omega arith)
length-le_of_within (suc n) xs d w = omega (
  arith,
  length-others_distinct (pos (suc n)) xs d,
  length-le_of_within n (others (pos (suc n)) xs) (Pairwise-select (λ a b. eq_ℤ a b ≡ false) _ xs d)
      (IsWithin-others n xs w),
)

-- A member is lost, and no other.
length-others_member :
    (x : ℤ) (xs : List ℤ) → any (eq_ℤ x) xs ≡ true → suc (length (others x xs)) ≤ length xs
length-others_member x [] h = cc
length-others_member x (y ∷ ys) h = ground (arith, length-others_member x ys, length-others-le x ys)
  where
    length-others-le : (x : ℤ) (ys : List ℤ) → length (others x ys) ≤ length ys
    length-others-le x [] = omega arith
    length-others-le x (y ∷ ys) = ground (arith, length-others-le x ys)

any-others :
    (x z : ℤ) (xs : List ℤ)
    → eq_ℤ x z ≡ false
    → any (eq_ℤ z) xs ≡ true
    → any (eq_ℤ z) (others x xs) ≡ true
any-others x z [] n h = h
any-others x z (y ∷ ys) n h = ground (arith, any-others x z ys n, eq_ℤ→eq z y, eq_ℤ→eq x y)

below_top :
    (n k : ℕ)
    → n ≤ k
    → (xs : List ℤ) → Upto (λ m. any (eq_ℤ (pos m)) xs ≡ true) n
    → Upto (λ m. any (eq_ℤ (pos m)) (others (pos (suc k)) xs) ≡ true) n
below_top zero k l xs h = tt
below_top (suc n) k l xs h = (
  any-others (pos (suc k)) (pos (suc n)) xs (ground arith) h.0,
  below_top n k (omega arith) xs h.1,
)

-- A list in which every number of 1..n stands has at least n elements.
pub le-length_of_Upto :
    (n : ℕ) (xs : List ℤ) → Upto (λ m. any (eq_ℤ (pos m)) xs ≡ true) n → n ≤ length xs
le-length_of_Upto zero xs h = omega arith
le-length_of_Upto (suc n) xs h = omega (
  arith,
  length-others_member (pos (suc n)) xs h.0,
  le-length_of_Upto n (others (pos (suc n)) xs) (below_top n n (omega arith) xs h.1),
)
