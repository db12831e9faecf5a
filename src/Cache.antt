-- ===== src/Cache.antt =====
-- backend/internal/cache: errors.go, the entry of store.go, and store_memory.go. A payload is the
-- list of its bytes, so a copy of it is itself; the clock's answer is an argument.
use ottodot_trial_booking_se.Prelude.{
  Bool, Duration, List, Option, Text, Time, [], add_time, before, delete, false, if◌then◌else◌,
  insert, is_empty, leb_ℤ, length, lookup, lookup_or, none, not, pos, some, true, ℕ, ◌%◌, ◌&&◌, ◌+◌,
  ◌||◌,
}
pub mod Shelf
pub mod Refines
pub mod Gone
mod Examples

pub data Error : Type 0 where
  err_invalid_request err_unavailable : Error

pub record Entry : Type 0 where
  pub etag : Text
  pub payload : Text

abbrev pub no_entry : Entry
no_entry = record { etag = []; payload = [] }

abbrev pub is_usable : Entry → Bool
is_usable entry = not (is_empty entry.etag) && not (is_empty entry.payload)

pub record Held : Type 0 where
  pub entry : Entry
  pub expire_at : Time

-- `MemoryStore` is its two maps.
pub record Store : Type 0 where
  pub entries : List (Text × Held)
  pub versions : List (Text × ℕ)

abbrev pub new_store : Store
new_store = record { entries = []; versions = [] }

-- `Entry`: a miss is no error, and an expired row is dropped by the read that meets it.
unfoldable pub get_entry : Store → Text → Time → Store × Entry × Bool × Option Error
get_entry store key now =
    if is_empty key
    then (store, no_entry, false, some err_invalid_request)
    else elim (lookup key store.entries) [
      | none ↦ (store, no_entry, false, none)
      | some stored ↦
          if not (before now stored.expire_at)
          then (record store { entries = delete key store.entries }, no_entry, false, none)
          else (store, stored.entry, true, none)
    ]

unfoldable pub save : Store → Text → Entry → Duration → Time → Store × Option Error
save store key entry lifetime now =
    if (is_empty key || not (is_usable entry)) || leb_ℤ lifetime (pos 0)
    then (store, some err_invalid_request)
    else (
      record store {
        entries =
            insert key (record { entry = entry; expire_at = add_time now lifetime }) store.entries;
      },
      none,
    )

-- `versions[key]`: a missing key is version zero.
unfoldable pub version : Store → Text → ℕ × Option Error
version store key =
    if is_empty key then (0, some err_invalid_request) else (lookup_or 0 key store.versions, none)

-- The increment of a uint64, which wraps at 2 ^ 64.
abbrev pub next_uint64 : ℕ → ℕ
next_uint64 n = (n + 1) % 18446744073709551616

unfoldable pub invalidate : Store → Text → Store × ℕ × Option Error
invalidate store key = if is_empty key then (store, 0, some err_invalid_request) else (
  record {
    entries = delete key store.entries;
    versions = insert key (next_uint64 (lookup_or 0 key store.versions)) store.versions;
  },
  next_uint64 (lookup_or 0 key store.versions),
  none,
)

unfoldable pub size : Store → ℕ
size store = length store.entries
