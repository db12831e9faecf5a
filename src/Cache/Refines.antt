-- ===== src/Cache/Refines.antt =====
-- store_memory.go answers as the shelf does.
use ottodot_trial_booking_se.Prelude.{
  Duration, add_time, ap, delete, delete-IsKeyed, insert, insert-IsKeyed, leb_ℤ, lookup-delete_ne,
  lookup-delete_self, lookup-insert, not, pos, subst, sym, text_cases, text_eq, ◌||◌, ◌∙◌, Bool,
  Bool-cases, IsKeyed, List, Option, Option-cases, Text, Time, [], arith, before, false, inl, inr,
  is_empty, lookup, lookup_or, none, refl, some, true, ◌∷◌, ◌≡◌, ◌≤◌,
}
use ottodot_trial_booking_se.Cache.Shelf.{
  Shelf, empty_shelf, shown, Call, reads, saves, asks_version, invalidates, Reply, entry_is, saved,
  version_is, refused, put, shelf_step, shelf_replies,
}
use ottodot_trial_booking_se.Cache.{
  Entry, Error, Held, Store, new_store, get_entry, save, version, invalidate, next_uint64,
  is_usable,
}

abbrev answer_or : {A : Type 0} → (A → Reply) → A × Option Error → Reply
answer_or f (value, none) = f value
answer_or f (value, some err) = refused err

unfoldable pub store_step : Store → Call → Store × Reply
store_step store (reads key now) =
    let (next, entry, found, err) = get_entry store key now in
    (next, answer_or entry_is ((entry, found), err))
store_step store (saves key entry lifetime now) =
    let (next, err) = save store key entry lifetime now in
    (next, answer_or (λ (u : Bool). saved) (true, err))
store_step store (asks_version key) = (store, answer_or version_is (version store key))
store_step store (invalidates key) =
    let (next, counted, err) = invalidate store key in (next, answer_or version_is (counted, err))

unfoldable pub store_replies : Store → List Call → List Reply
store_replies store [] = []
store_replies store (call ∷ calls) =
    let (next, reply) = store_step store call in reply ∷ store_replies next calls

-- The reads of the calls come at clocks that do not run back, from an instant on.
abbrev pub IsOrdered : Time → List Call → Type 0
IsOrdered t [] = Unit
IsOrdered t (reads key now ∷ calls) = (t ≤ now) × IsOrdered now calls
IsOrdered t (_ ∷ calls) = IsOrdered t calls

-- From an instant on, the store shows what the shelf shows.
pub record Refines (t : Time) (store : Store) (shelf : Shelf) : Type 0 where
  pub keyed : IsKeyed store.entries
  pub entries :
      (key : Text) (u : Time)
      → t ≤ u
      → shown (lookup key store.entries) u ≡ shown (shelf.held key) u
  pub versions : (key : Text) → lookup_or 0 key store.versions ≡ shelf.counted key

-- One call answers alike and keeps the relation.
abbrev Matches : Time → Store × Reply → Shelf × Reply → Type 0
Matches t (store, given) (shelf, promised) = (given ≡ promised) × Refines t store shelf

shown_later :
    (stored : Held) (now u : Time)
    → before now stored.expire_at ≡ false
    → now ≤ u
    → shown (some stored) u ≡ shown none u
shown_later stored now u past late = ground arith

shown_live :
    (stored : Held) (now : Time)
    → before now stored.expire_at ≡ true
    → shown (some stored) now ≡ (stored.entry, true)
shown_live stored now live = rw live refl

later :
    (t now : Time) (store : Store) (shelf : Shelf)
    → t ≤ now
    → Refines t store shelf
    → Refines now store shelf
later t now store shelf le r = record {
  keyed = r.keyed;
  entries = λ key u late. r.entries key u (omega arith);
  versions = r.versions;
}

-- A row that is no longer shown can go.
dropped :
    (t now : Time) (store : Store) (shelf : Shelf) (key : Text) (stored : Held)
    → lookup key store.entries ≡ some stored
    → before now stored.expire_at ≡ false
    → t ≤ now
    → Refines t store shelf
    → Refines now (record store { entries = delete key store.entries }) shelf
dropped t now store shelf key stored m past le r = record {
  keyed = delete-IsKeyed key store.entries r.keyed;
  entries = λ k u late. elim (text_cases key k) [
    | inl (e, same) ↦
        let seen : shown (some stored) u ≡ shown (shelf.held key) u =
          subst (λ o. shown o u ≡ shown (shelf.held key) u) m (r.entries key u (omega arith)) in
        subst (λ j. shown (lookup j (delete key store.entries)) u ≡ shown (shelf.held j) u) same
          (rw (lookup-delete_self key store.entries r.keyed)
            (sym (shown_later stored now u past late) ∙ seen))
    | inr (e, away) ↦ rw (lookup-delete_ne key k store.entries away) (r.entries k u (omega arith))
  ];
  versions = r.versions;
}

-- A new row is shown on both sides.
written :
    (t : Time) (store : Store) (shelf : Shelf) (key : Text) (row : Held)
    → Refines t store shelf
    → Refines t
        (record store { entries = insert key row store.entries })
        (record shelf { held = put key (some row) shelf.held })
written t store shelf key row r = record {
  keyed = insert-IsKeyed key row store.entries r.keyed;
  entries = λ k u late.
      rw (lookup-insert key k row store.entries) (elim (Bool-cases (text_eq key k)) [
        | inl e ↦ rw e refl
        | inr e ↦ rw e (r.entries k u late)
      ]);
  versions = r.versions;
}

-- A row that is taken away is shown on neither side, and its version moves on both.
emptied :
    (t : Time) (store : Store) (shelf : Shelf) (key : Text)
    → Refines t store shelf
    → Refines t
        (record {
          entries = delete key store.entries;
          versions = insert key (next_uint64 (lookup_or 0 key store.versions)) store.versions;
        })
        (record {
          held = put key none shelf.held;
          counted = put key (next_uint64 (shelf.counted key)) shelf.counted;
        })
emptied t store shelf key r = record {
  keyed = delete-IsKeyed key store.entries r.keyed;
  entries = λ k u late. elim (text_cases key k) [
    | inl (e, same) ↦ rw e (
        subst (λ j. shown (lookup j (delete key store.entries)) u ≡ shown none u) same
          (rw (lookup-delete_self key store.entries r.keyed) refl))
    | inr (e, away) ↦ rw e (rw (lookup-delete_ne key k store.entries away) (r.entries k u late))
  ];
  versions = λ k.
      rw
        (
          lookup-insert key k (next_uint64 (lookup_or 0 key store.versions)) store.versions,
          lookup_or,
        )
        (elim (Bool-cases (text_eq key k)) [
          | inl e ↦ rw e (ap next_uint64 (r.versions key))
          | inr e ↦ rw e (r.versions k)
        ]);
}

reads-Matches :
    (t : Time) (store : Store) (shelf : Shelf) (key : Text) (now : Time)
    → t ≤ now
    → Refines t store shelf
    → Matches now (store_step store (reads key now)) (shelf_step shelf (reads key now))
unfolding store_step shelf_step get_entry
reads-Matches t store shelf key now le r = elim (Bool-cases (is_empty key)) [
  | inl e ↦ rw (e, get_entry) (refl, later t now store shelf le r)
  | inr e ↦
      rw (e, get_entry)
        (elim (Option-cases (lookup key store.entries)) [
          | inl m ↦
              let seen : shown none now ≡ shown (shelf.held key) now =
                subst (λ o. shown o now ≡ shown (shelf.held key) now) m (r.entries key now le) in
              rw (m, get_entry) (ap entry_is seen, later t now store shelf le r)
          | inr (stored, m) ↦
              let seen : shown (some stored) now ≡ shown (shelf.held key) now =
                subst (λ o. shown o now ≡ shown (shelf.held key) now) m (r.entries key now le) in
              rw (m, get_entry)
                (elim (Bool-cases (before now stored.expire_at)) [
                  | inl live ↦
                      rw (live, get_entry)
                        (
                          ap entry_is (sym (shown_live stored now live) ∙ seen),
                          later t now store shelf le r,
                        )
                  | inr past ↦
                      rw (past, get_entry)
                        (
                          ap entry_is (sym (shown_later stored now now past (omega arith)) ∙ seen),
                          dropped t now store shelf key stored m past le r,
                        )
                ])
        ])
]

saves-Matches :
    (t : Time) (store : Store) (shelf : Shelf) (key : Text) (entry : Entry) (lifetime : Duration)
    (now : Time)
    → Refines t store shelf
    → Matches t
        (store_step store (saves key entry lifetime now))
        (shelf_step shelf (saves key entry lifetime now))
unfolding store_step shelf_step save
saves-Matches t store shelf key entry lifetime now r =
    elim (Bool-cases ((is_empty key || not (is_usable entry)) || leb_ℤ lifetime (pos 0))) [
      | inl e ↦ rw (e, save) (refl, r)
      | inr e ↦
          rw (e, save)
            (
              refl,
              written t store shelf key
                  (record { entry = entry; expire_at = add_time now lifetime }) r,
            )
    ]

version-Matches :
    (t : Time) (store : Store) (shelf : Shelf) (key : Text)
    → Refines t store shelf
    → Matches t (store_step store (asks_version key)) (shelf_step shelf (asks_version key))
unfolding store_step shelf_step version
version-Matches t store shelf key r = elim (Bool-cases (is_empty key)) [
  | inl e ↦ rw (e, version) (refl, r)
  | inr e ↦ rw (e, version) (ap version_is (r.versions key), r)
]

invalidate-Matches :
    (t : Time) (store : Store) (shelf : Shelf) (key : Text)
    → Refines t store shelf
    → Matches t (store_step store (invalidates key)) (shelf_step shelf (invalidates key))
unfolding store_step shelf_step invalidate
invalidate-Matches t store shelf key r = elim (Bool-cases (is_empty key)) [
  | inl e ↦ rw (e, invalidate) (refl, r)
  | inr e ↦
      rw (e, invalidate)
        (ap (λ n. version_is (next_uint64 n)) (r.versions key), emptied t store shelf key r)
]

next_alike :
    (t u : Time) (calls : List Call) (a : Store × Reply) (b : Shelf × Reply)
    → Matches u a b
    → (Refines u a.0 b.0 → store_replies a.0 calls ≡ shelf_replies b.0 calls)
    → (a.1 ∷ store_replies a.0 calls) ≡ (b.1 ∷ shelf_replies b.0 calls)
next_alike t u calls a b h rest = let tail = rest h.1 in let head = h.0 in cc

-- From a store that shows what a shelf shows from an instant on, every schedule of calls whose reads
-- come at clocks from that instant on that do not run back is answered as the shelf answers it.
pub store_replies-eq-shelf_replies :
    (t : Time) (store : Store) (shelf : Shelf) (calls : List Call)
    → Refines t store shelf
    → IsOrdered t calls
    → store_replies store calls ≡ shelf_replies shelf calls
unfolding store_replies shelf_replies
store_replies-eq-shelf_replies t store shelf [] r o = refl
store_replies-eq-shelf_replies t store shelf (reads key now ∷ calls) r o =
    next_alike t now calls _ _ (reads-Matches t store shelf key now o.0 r)
      λ r'. store_replies-eq-shelf_replies now _ _ calls r' o.1
store_replies-eq-shelf_replies t store shelf (saves key entry lifetime now ∷ calls) r o =
    next_alike t t calls _ _ (saves-Matches t store shelf key entry lifetime now r)
      λ r'. store_replies-eq-shelf_replies t _ _ calls r' o
store_replies-eq-shelf_replies t store shelf (asks_version key ∷ calls) r o =
    next_alike t t calls _ _ (version-Matches t store shelf key r)
      λ r'. store_replies-eq-shelf_replies t _ _ calls r' o
store_replies-eq-shelf_replies t store shelf (invalidates key ∷ calls) r o =
    next_alike t t calls _ _ (invalidate-Matches t store shelf key r)
      λ r'. store_replies-eq-shelf_replies t _ _ calls r' o

-- A new store answers every schedule of calls whose reads come at clocks that do not run back as the
-- empty shelf answers it.
pub new_store-refines_shelf :
    (calls : List Call)
    → IsOrdered 0 calls
    → store_replies new_store calls ≡ shelf_replies empty_shelf calls
unfolding lookup
new_store-refines_shelf calls o =
    store_replies-eq-shelf_replies 0 new_store empty_shelf calls
      (record { keyed = tt; entries = λ key u late. refl; versions = λ key. refl }) o
