-- ===== src/Cache/Gone.antt =====
-- store_memory.go: an entry that was invalidated is not shown again.
use ottodot_trial_booking_se.Prelude.{
  All, Bool-cases, IsKeyed, List, Option-cases, Text, Time, [], arith, before, delete, false, inl,
  inr, is_empty, leb_ℤ, lookup, lookup-delete_self, lookup-insert_ne, none, not, pos, refl, ◌||◌,
  ◌∙◌, ◌∷◌, ◌≡◌, ◌≢◌,
}
use ottodot_trial_booking_se.Cache.Shelf.{Call, reads, saves, asks_version, invalidates}
use ottodot_trial_booking_se.Cache.Refines.{store_step}
use ottodot_trial_booking_se.Cache.{Held, is_usable, Store, get_entry, save, invalidate}

unfoldable pub store_run : Store → List Call → Store
store_run store [] = store
store_run store (call ∷ calls) = store_run (store_step store call).0 calls

-- A call that saves nothing under the key.
abbrev pub IsForeign : Text → Call → Type 0
IsForeign key (saves other_key entry lifetime now) = other_key ≢ key
IsForeign key _ = Unit

absent_delete :
    (j k : Text) (m : List (Text × Held)) → lookup k m ≡ none → lookup k (delete j m) ≡ none
unfolding lookup delete
absent_delete j k [] e = refl
absent_delete j k ((i, v) ∷ m) e = ground (arith, absent_delete j k m)

step-none :
    (store : Store) (key : Text) (call : Call)
    → IsForeign key call
    → lookup key store.entries ≡ none
    → lookup key (store_step store call).0.entries ≡ none
unfolding store_step get_entry save invalidate
step-none store key (reads asked now) f e = elim (Bool-cases (is_empty asked)) [
  | inl t ↦ rw (t, get_entry) e
  | inr t ↦
      rw (t, get_entry)
        (elim (Option-cases (lookup asked store.entries)) [
          | inl m ↦ rw (m, get_entry) e
          | inr (stored, m) ↦
              rw (m, get_entry)
                (elim (Bool-cases (before now stored.expire_at)) [
                  | inl live ↦ rw (live, get_entry) e
                  | inr past ↦ rw (past, get_entry) (absent_delete asked key store.entries e)
                ])
        ])
]
step-none store key (saves other_key entry lifetime now) f e =
    elim (Bool-cases ((is_empty other_key || not (is_usable entry)) || leb_ℤ lifetime (pos 0))) [
      | inl t ↦ rw (t, save) e
      | inr t ↦ rw (t, save) (lookup-insert_ne other_key key _ store.entries f ∙ e)
    ]
step-none store key (asks_version asked) f e = e
step-none store key (invalidates asked) f e = elim (Bool-cases (is_empty asked)) [
  | inl t ↦ rw (t, invalidate) e
  | inr t ↦ rw (t, invalidate) (absent_delete asked key store.entries e)
]

run-none :
    (store : Store) (key : Text) (calls : List Call)
    → All (IsForeign key) calls
    → lookup key store.entries ≡ none
    → lookup key (store_run store calls).entries ≡ none
unfolding store_run
run-none store key [] f e = e
run-none store key (call ∷ calls) f e =
    run-none (store_step store call).0 key calls f.1 (step-none store key call f.0 e)

invalidate-none :
    (store : Store) (key : Text)
    → IsKeyed store.entries
    → (invalidate store key).2 ≡ none
    → (is_empty key ≡ false) × (lookup key (invalidate store key).0.entries ≡ none)
unfolding invalidate
invalidate-none store key v = elim (Bool-cases (is_empty key)) [
  | inl t ↦ rw (t, invalidate) (λ e. absurd cc)
  | inr t ↦ rw (t, invalidate) (λ e. (refl, lookup-delete_self key store.entries v))
]

-- In a store with one row for each key: after an Invalidate without an error, whatever calls come in
-- between that save nothing under its key, a read of the key at any clock finds nothing and reports
-- no error.
pub invalidated_stays_gone :
    (store : Store) (key : Text) (calls : List Call) (now : Time)
    → IsKeyed store.entries
    → (invalidate store key).2 ≡ none
    → All (IsForeign key) calls
    → ((get_entry (store_run (invalidate store key).0 calls) key now).2 ≡ false)
      × ((get_entry (store_run (invalidate store key).0 calls) key now).3 ≡ none)
unfolding get_entry
invalidated_stays_gone store key calls now v ok f =
    let (named, gone) = invalidate-none store key v ok in
    let away = run-none (invalidate store key).0 key calls f gone in
    rw (named, away, get_entry) (refl, refl)
