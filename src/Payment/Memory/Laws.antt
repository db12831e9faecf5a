-- ===== src/Payment/Memory/Laws.antt =====
-- repository_memory.go: the walk of attemptByKeyLocked, and the rows under their identifiers.
use ottodot_trial_booking_se.Prelude.{
  All-append, All-map, if◌then◌else◌, inl, inr, insert-All, lookup-insert, lookup-insert_self,
  text_cases, text_eq, All, List, Text, [], arith, insert, lookup, none, refl, some, ◌++◌, ◌∷◌, ◌≡◌,
}
use ottodot_trial_booking_se.Payment.Model.{Attempt}
use ottodot_trial_booking_se.Payment.Memory.{has_key, Repository, walk_keys}

-- The identifier of the order has its attempt, and the attempt carries the identifier.
abbrev pub HasRow : List (Text × Attempt) → Text → Type 0
HasRow attempts id = (a : Attempt) × (lookup id attempts ≡ some a) × (a.id ≡ id)

pub record IsKept (repository : Repository) : Type 0 where
  pub keyed : All (λ row. row.1.id ≡ row.0) repository.attempts
  pub rows : All (HasRow repository.attempts) repository.order

-- The walk answers the first attempt with the key, so what stands before decides.
pub walk_keys-append :
    (attempts : List (Text × Attempt)) (booking_id key : Text) (ids rest : List Text) (a : Attempt)
    → walk_keys attempts booking_id key ids ≡ some a
    → walk_keys attempts booking_id key (ids ++ rest) ≡ some a
unfolding walk_keys
walk_keys-append attempts booking_id key [] rest a e = cc
walk_keys-append attempts booking_id key (id ∷ ids) rest a e =
    ground (arith, walk_keys-append attempts booking_id key ids rest a)

-- A write of an identifier that is not walked changes no answer.
pub walk_keys-insert_new :
    (attempts : List (Text × Attempt)) (booking_id key new : Text) (row : Attempt) (ids : List Text)
    → lookup new attempts ≡ none
    → All (HasRow attempts) ids
    → walk_keys (insert new row attempts) booking_id key ids ≡ walk_keys attempts booking_id key ids
unfolding walk_keys
walk_keys-insert_new attempts booking_id key new row [] n h = refl
walk_keys-insert_new attempts booking_id key new row (id ∷ ids) n h =
    let (a, found, same) = h.0 in
    ground (
      arith,
      lookup-insert new id row attempts,
      walk_keys-insert_new attempts booking_id key new row ids n h.1,
    )

-- A write of a walked row that leaves its keys alone changes the answer at that row alone.
pub walk_keys-insert_old :
    (attempts : List (Text × Attempt)) (booking_id key : Text) (old row : Attempt) (ids : List Text)
    (a : Attempt)
    → lookup old.id attempts ≡ some old
    → row.id ≡ old.id
    → has_key booking_id key row ≡ has_key booking_id key old
    → All (HasRow attempts) ids
    → walk_keys attempts booking_id key ids ≡ some a
    → walk_keys (insert old.id row attempts) booking_id key ids
      ≡ some (if text_eq a.id old.id then row else a)
unfolding walk_keys
walk_keys-insert_old attempts booking_id key old row [] a found same keys h e = cc
walk_keys-insert_old attempts booking_id key old row (id ∷ ids) a found same keys h e =
    let (b, there, own) = h.0 in
    ground (
      arith,
      lookup-insert old.id id row attempts,
      walk_keys-insert_old attempts booking_id key old row ids a found same keys h.1,
    )

HasRow-insert :
    (attempts : List (Text × Attempt)) (row : Attempt) (id : Text)
    → HasRow attempts id
    → HasRow (insert row.id row attempts) id
HasRow-insert attempts row id (a, found, same) = elim (text_cases row.id id) [
  | inl (t, here) ↦ (row, rw (lookup-insert row.id id row attempts, t) refl, here)
  | inr (t, away) ↦ (a, rw (lookup-insert row.id id row attempts, t) found, same)
]

-- The two writes keep the rows.
pub open-IsKept :
    (repository : Repository) (row : Attempt)
    → IsKept repository
    → IsKept (record repository {
      attempts = insert row.id row repository.attempts;
      order = repository.order ++ row.id ∷ [];
    })
open-IsKept repository row v = record {
  keyed = insert-All (λ r. r.1.id ≡ r.0) row.id row repository.attempts v.keyed refl;
  rows =
      All-append (HasRow (insert row.id row repository.attempts)) repository.order (row.id ∷ [])
        (All-map (HasRow repository.attempts) (HasRow (insert row.id row repository.attempts))
          repository.order (λ id h. HasRow-insert repository.attempts row id h) v.rows)
        ((row, lookup-insert_self row.id row repository.attempts, refl), tt);
}

pub close-IsKept :
    (repository : Repository) (row : Attempt)
    → IsKept repository
    → IsKept (record repository { attempts = insert row.id row repository.attempts })
close-IsKept repository row v = record {
  keyed = insert-All (λ r. r.1.id ≡ r.0) row.id row repository.attempts v.keyed refl;
  rows =
      All-map (HasRow repository.attempts) (HasRow (insert row.id row repository.attempts))
        repository.order (λ id h. HasRow-insert repository.attempts row id h) v.rows;
}
