-- ===== src/Prelude/Assoc.antt =====
-- Go maps with string keys as association lists. A write to a key that is there replaces its value
-- in place, and a write to a new key adds a row at the end: one of the orders in which Go may walk
-- the map.
use Prim.Native.Nat.{suc}
use mathlib.Core.Path.{◌≡◌, refl, sym, subst}
use mathlib.Core.Bool.{Bool}
use mathlib.Core.Logic.{◌≢◌, inl, inr}
use mathlib.Core.Option.{Option, none, some, some-injective}
use mathlib.Core.List.{List, [], ◌∷◌}
use native.Mathlib.Omega.{arith}
use ottodot_trial_booking_se.Prelude.Tests.{if◌then◌else◌}
use ottodot_trial_booking_se.Prelude.Texts.{Text, text_eq, text_cases}
use ottodot_trial_booking_se.Prelude.Lists.{All, Pairwise, All-zip, All-map, tally}

module _ {ℓ} {V : Type ℓ} where
  unfoldable pub lookup : Text → List (Text × V) → Option V
  lookup k [] = none
  lookup k ((j, v) ∷ m) = if text_eq j k then some v else lookup k m

  unfoldable pub insert : Text → V → List (Text × V) → List (Text × V)
  insert k v [] = (k, v) ∷ []
  insert k v ((j, w) ∷ m) = if text_eq j k then (k, v) ∷ m else (j, w) ∷ insert k v m

  unfoldable pub delete : Text → List (Text × V) → List (Text × V)
  delete k [] = []
  delete k ((j, w) ∷ m) = if text_eq j k then m else (j, w) ∷ delete k m

  -- Reading a missing key gives the zero value.
  abbrev pub lookup_or : V → Text → List (Text × V) → V
  lookup_or d k m = elim (lookup k m) [ none ↦ d | some v ↦ v ]

  pub lookup-insert :
      (k j : Text) (v : V) (m : List (Text × V))
      → lookup j (insert k v m) ≡ (if text_eq k j then some v else lookup j m)
  unfolding lookup insert
  lookup-insert k j v [] = refl
  lookup-insert k j v ((i, w) ∷ m) = ground (arith, lookup-insert k j v m)

  pub lookup-insert_self :
      (k : Text) (v : V) (m : List (Text × V)) → lookup k (insert k v m) ≡ some v
  lookup-insert_self k v m = ground (arith, lookup-insert k k v m)

  pub lookup-insert_ne :
      (k j : Text) (v : V) (m : List (Text × V)) → k ≢ j → lookup j (insert k v m) ≡ lookup j m
  lookup-insert_ne k j v m h = ground (arith, lookup-insert k j v m)

module _ {ℓ} {V : Type ℓ} where
  pub lookup_or-insert_self :
      (d : V) (k : Text) (v : V) (m : List (Text × V)) → lookup_or d k (insert k v m) ≡ v
  lookup_or-insert_self d k v m = rw (lookup-insert_self k v m, lookup_or)

  pub lookup_or-insert_ne :
      (d : V) (k j : Text) (v : V) (m : List (Text × V))
      → k ≢ j
      → lookup_or d j (insert k v m) ≡ lookup_or d j m
  lookup_or-insert_ne d k j v m h = rw (lookup-insert_ne k j v m h, lookup_or)

-- A predicate on rows, and a relation between each row and the later ones.
module _ {ℓ κ} {V : Type ℓ} where
  pub lookup-All :
      (P : Text × V → Type κ) (k : Text) (v : V) (m : List (Text × V))
      → All P m
      → lookup k m ≡ some v
      → P (k, v)
  unfolding lookup
  lookup-All P k v [] h e = cc
  lookup-All P k v ((j, w) ∷ m) h e = ground (arith, lookup-All P k v m h.1)

  pub insert-All :
      (P : Text × V → Type κ) (k : Text) (v : V) (m : List (Text × V))
      → All P m
      → P (k, v)
      → All P (insert k v m)
  unfolding insert
  insert-All P k v [] h p = (p, tt)
  insert-All P k v ((j, w) ∷ m) h p = ground (arith, insert-All P k v m h.1 p)

  -- Rows that stand apart have distinct keys.
  abbrev pub Keyed : (Text × V → Text × V → Type κ) → Type (ℓ ⊔ κ)
  Keyed R = (a b : Text × V) → R a b → a.0 ≢ b.0

  rest_apart :
      (R : Text × V → Text × V → Type κ) (k : Text) (v w : V) (m : List (Text × V))
      → Keyed R
      → All (R (k, w)) m
      → All (λ r. r.0 ≢ k → R (k, v) r) m
      → All (R (k, v)) m
  rest_apart R k v w m keyed h n =
      All-zip (R (k, w)) (λ r. r.0 ≢ k → R (k, v) r) (R (k, v)) m
        (λ r away f. f (λ e. keyed (k, w) r away (sym e))) h n

  pub insert-Pairwise :
      (R : Text × V → Text × V → Type κ) (k : Text) (v : V) (m : List (Text × V))
      → Keyed R
      → ((a b : Text × V) → R a b → R b a)
      → Pairwise R m
      → All (λ r. r.0 ≢ k → R (k, v) r) m
      → Pairwise R (insert k v m)
  unfolding insert
  insert-Pairwise R k v [] keyed symm h n = (tt, tt)
  insert-Pairwise R k v ((j, w) ∷ m) keyed symm h n = elim (text_cases j k) [
    | inl (e, same) ↦
        rw e (rest_apart R k v w m keyed (subst (λ i. All (R (i, w)) m) same h.0) n.1, h.1)
    | inr (e, away) ↦ rw e (
      insert-All (R (j, w)) k v m h.0 (symm (k, v) (j, w) (n.0 away)),
      insert-Pairwise R k v m keyed symm h.1 n.1,
    )
  ]

  pub delete-All :
      (P : Text × V → Type κ) (k : Text) (m : List (Text × V)) → All P m → All P (delete k m)
  unfolding delete
  delete-All P k [] h = tt
  delete-All P k ((j, w) ∷ m) h = ground (arith, delete-All P k m h.1)

  pub delete-Pairwise :
      (R : Text × V → Text × V → Type κ) (k : Text) (m : List (Text × V))
      → Pairwise R m
      → Pairwise R (delete k m)
  unfolding delete
  delete-Pairwise R k [] h = tt
  delete-Pairwise R k ((j, w) ∷ m) h =
      ground (arith, delete-All (R (j, w)) k m h.0, delete-Pairwise R k m h.1)

-- How a write to a key changes the count of rows that pass a test.
module _ {ℓ} {V : Type ℓ} where
  pub tally-insert_new :
      (p : Text × V → Bool) (k : Text) (v : V) (m : List (Text × V))
      → lookup k m ≡ none
      → tally p (insert k v m) ≡ (if p (k, v) then suc (tally p m) else tally p m)
  unfolding lookup insert
  tally-insert_new p k v [] e = refl
  tally-insert_new p k v ((j, w) ∷ m) e = ground (arith, tally-insert_new p k v m)

  pub tally-insert_old :
      (p : Text × V → Bool) (k : Text) (v w : V) (m : List (Text × V))
      → lookup k m ≡ some w
      → (if p (k, w) then suc (tally p (insert k v m)) else tally p (insert k v m))
        ≡ (if p (k, v) then suc (tally p m) else tally p m)
  unfolding lookup insert
  tally-insert_old p k v w [] e = cc
  tally-insert_old p k v w ((j, u) ∷ m) e = ground (arith, tally-insert_old p k v w m)

module _ {ℓ κ} {V : Type ℓ} where
  -- A stored row stands apart from every row with another key.
  pub lookup-Pairwise :
      (R : Text × V → Text × V → Type κ) (k : Text) (v : V) (m : List (Text × V))
      → ((a b : Text × V) → R a b → R b a)
      → Pairwise R m
      → lookup k m ≡ some v
      → All (λ r. r.0 ≢ k → R (k, v) r) m
  unfolding lookup
  lookup-Pairwise R k v [] symm h e = tt
  lookup-Pairwise R k v ((j, w) ∷ m) symm h e = elim (text_cases j k) [
    | inl (t, same) ↦
        let e' : some w ≡ some v = rw t at e in
        let away : All (R (k, v)) m =
          subst (λ i. All (R (i, v)) m) same
            (subst (λ u. All (R (j, u)) m) (some-injective w v e') h.0) in
        ((λ n. absurd (n same)), All-map (R (k, v)) (λ r. r.0 ≢ k → R (k, v) r) m (λ r a n. a) away)
    | inr (t, away) ↦
        let e' : lookup k m ≡ some v = rw t at e in
        (
          (λ n. symm (j, w) (k, v) (lookup-All (R (j, w)) k v m h.0 e')),
          lookup-Pairwise R k v m symm h.1 e',
        )
  ]
