-- ===== src/Prelude/Sort.antt =====
-- `sort.Slice` with a comparison: the result is the list in order. Where the comparison leaves two
-- elements equal their order is one that Go may produce.
use Prim.Native.Nat.{suc}
use mathlib.Core.Path.{◌≡◌, refl}
use mathlib.Core.Bool.{Bool, true, false}
use mathlib.Core.Logic.{inl, inr}
use mathlib.Core.List.{List, [], ◌∷◌, Perm}
use mathlib.Core.List.Perm
use native.Mathlib.Omega.{arith}
use ottodot_trial_booking_se.Prelude.Tests.{if◌then◌else◌, Bool-cases}
use ottodot_trial_booking_se.Prelude.Lists.{All, Pairwise, length, All-map}

module _ {ℓ} {A : Type ℓ} where
  unfoldable pub insert_by : (A → A → Bool) → A → List A → List A
  insert_by less x [] = x ∷ []
  insert_by less x (y ∷ ys) = if less y x then y ∷ insert_by less x ys else x ∷ y ∷ ys

  unfoldable pub sort : (A → A → Bool) → List A → List A
  unfolding insert_by
  sort less [] = []
  sort less (x ∷ xs) = insert_by less x (sort less xs)

  insert_by-perm : (less : A → A → Bool) (x : A) (xs : List A) → Perm (insert_by less x xs) (x ∷ xs)
  unfolding insert_by
  insert_by-perm less x [] = Perm.refl (x ∷ [])
  insert_by-perm less x (y ∷ ys) = elim (Bool-cases (less y x)) [
    | inl e ↦ rw e (Perm.trans (Perm.cons y (insert_by-perm less x ys)) (Perm.swap x y ys))
    | inr e ↦ rw e (Perm.refl (x ∷ y ∷ ys))
  ]

  -- Sorting keeps every element, as often.
  pub sort-perm : (less : A → A → Bool) (xs : List A) → Perm (sort less xs) xs
  unfolding sort
  sort-perm less [] = Perm.refl []
  sort-perm less (x ∷ xs) =
      Perm.trans (insert_by-perm less x (sort less xs)) (Perm.cons x (sort-perm less xs))

  length-insert_by :
      (less : A → A → Bool) (x : A) (xs : List A) → length (insert_by less x xs) ≡ suc (length xs)
  unfolding insert_by
  length-insert_by less x [] = refl
  length-insert_by less x (y ∷ ys) = ground (arith, length-insert_by less x ys)

  pub length-sort : (less : A → A → Bool) (xs : List A) → length (sort less xs) ≡ length xs
  unfolding sort
  length-sort less [] = refl
  length-sort less (x ∷ xs) =
      omega (arith, length-insert_by less x (sort less xs), length-sort less xs)

module _ {ℓ κ} {A : Type ℓ} where
  pub insert_by-All :
      (P : A → Type κ) (less : A → A → Bool) (x : A) (xs : List A)
      → P x
      → All P xs
      → All P (insert_by less x xs)
  unfolding insert_by
  insert_by-All P less x [] p h = (p, tt)
  insert_by-All P less x (y ∷ ys) p h = elim (Bool-cases (less y x)) [
    | inl e ↦ rw e (h.0, insert_by-All P less x ys p h.1)
    | inr e ↦ rw e (p, h)
  ]

  pub sort-All :
      (P : A → Type κ) (less : A → A → Bool) (xs : List A) → All P xs → All P (sort less xs)
  unfolding sort
  sort-All P less [] h = tt
  sort-All P less (x ∷ xs) h = insert_by-All P less x (sort less xs) h.0 (sort-All P less xs h.1)

  -- A symmetric relation between all pairs does not care about the order.
  insert_by-Pairwise :
      (R : A → A → Type κ) (less : A → A → Bool) (x : A) (xs : List A)
      → ((a b : A) → R a b → R b a)
      → All (R x) xs
      → Pairwise R xs
      → Pairwise R (insert_by less x xs)
  unfolding insert_by
  insert_by-Pairwise R less x [] symm a h = (tt, tt)
  insert_by-Pairwise R less x (y ∷ ys) symm a h = elim (Bool-cases (less y x)) [
    | inl e ↦ rw e (
      insert_by-All (R y) less x ys (symm x y a.0) h.0,
      insert_by-Pairwise R less x ys symm a.1 h.1,
    )
    | inr e ↦ rw e (a, h)
  ]

  pub sort-Pairwise :
      (R : A → A → Type κ) (less : A → A → Bool) (xs : List A)
      → ((a b : A) → R a b → R b a)
      → Pairwise R xs
      → Pairwise R (sort less xs)
  unfolding sort
  sort-Pairwise R less [] symm h = tt
  sort-Pairwise R less (x ∷ xs) symm h =
      insert_by-Pairwise R less x (sort less xs) symm (sort-All (R x) less xs h.0)
        (sort-Pairwise R less xs symm h.1)

module _ {ℓ} {A : Type ℓ} where
  -- No later element comes before an earlier one.
  abbrev pub IsSorted : (A → A → Bool) → List A → Type 0
  IsSorted less = Pairwise (λ a b. less b a ≡ false)

  -- What a comparison needs: it is asymmetric, and "not before" is transitive.
  abbrev pub IsOrder : (A → A → Bool) → Type ℓ
  IsOrder less =
      ((a b : A) → less a b ≡ true → less b a ≡ false)
      × ((a b c : A) → less b a ≡ false → less c b ≡ false → less c a ≡ false)

  insert_by-IsSorted :
      (less : A → A → Bool) (x : A) (xs : List A)
      → IsOrder less
      → IsSorted less xs
      → IsSorted less (insert_by less x xs)
  unfolding insert_by
  insert_by-IsSorted less x [] o h = (tt, tt)
  insert_by-IsSorted less x (y ∷ ys) o h = elim (Bool-cases (less y x)) [
    | inl e ↦ rw e (
      insert_by-All (λ b. less b y ≡ false) less x ys (o.0 y x e) h.0,
      insert_by-IsSorted less x ys o h.1,
    )
    | inr e ↦ rw e (
      (e, All-map (λ b. less b y ≡ false) (λ b. less b x ≡ false) ys (λ b k. o.1 x y b e k) h.0),
      h,
    )
  ]

  pub sort-IsSorted :
      (less : A → A → Bool) (xs : List A) → IsOrder less → IsSorted less (sort less xs)
  unfolding sort
  sort-IsSorted less [] o = tt
  sort-IsSorted less (x ∷ xs) o =
      insert_by-IsSorted less x (sort less xs) o (sort-IsSorted less xs o)

module _ {ℓ κ} {A : Type ℓ} where
  All-insert_by :
      (P : A → Type κ) (less : A → A → Bool) (x : A) (xs : List A)
      → All P (insert_by less x xs)
      → P x × All P xs
  unfolding insert_by
  All-insert_by P less x [] h = h
  All-insert_by P less x (y ∷ ys) h = elim (Bool-cases (less y x)) [
    | inl e ↦
        let k : All P (y ∷ insert_by less x ys) = rw e at h in
        let r = All-insert_by P less x ys k.1 in (r.0, (k.0, r.1))
    | inr e ↦ let k : All P (x ∷ y ∷ ys) = rw e at h in k
  ]

  pub All-sort :
      (P : A → Type κ) (less : A → A → Bool) (xs : List A) → All P (sort less xs) → All P xs
  unfolding sort
  All-sort P less [] h = tt
  All-sort P less (x ∷ xs) h =
      let r = All-insert_by P less x (sort less xs) h in (r.0, All-sort P less xs r.1)
