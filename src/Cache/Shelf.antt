-- ===== src/Cache/Shelf.antt =====
-- What store.go promises of a store: a shelf that holds for each key at most one entry with the
-- instant at which it stops being shown, and a version that only an invalidation moves. A read leaves
-- the shelf as it is.
use ottodot_trial_booking_se.Prelude.{
  Bool, Duration, List, Option, Text, Time, [], add_time, before, false, if◌then◌else◌, is_empty,
  leb_ℤ, none, not, pos, some, text_eq, true, ℕ, ◌||◌, ◌∷◌,
}
use ottodot_trial_booking_se.Cache.{
  Entry, no_entry, Error, err_invalid_request, is_usable, Held, next_uint64,
}

pub record Shelf : Type 0 where
  pub held : Text → Option Held
  pub counted : Text → ℕ

abbrev pub empty_shelf : Shelf
empty_shelf = record { held = λ key. none; counted = λ key. 0 }

-- What is seen of a row at an instant.
abbrev pub shown : Option Held → Time → Entry × Bool
shown none now = (no_entry, false)
shown (some stored) now =
    if before now stored.expire_at then (stored.entry, true) else (no_entry, false)

-- One call of the store, with the clock that it reads.
pub data Call : Type 0 where
  reads : Text → Time → Call
  saves : Text → Entry → Duration → Time → Call
  asks_version : Text → Call
  invalidates : Text → Call

pub data Reply : Type 0 where
  entry_is : Entry × Bool → Reply
  saved : Reply
  version_is : ℕ → Reply
  refused : Error → Reply

abbrev pub put : {A : Type 0} → Text → A → (Text → A) → Text → A
put key value old asked = if text_eq key asked then value else old asked

unfoldable pub shelf_step : Shelf → Call → Shelf × Reply
shelf_step shelf (reads key now) =
    if is_empty key
    then (shelf, refused err_invalid_request)
    else (shelf, entry_is (shown (shelf.held key) now))
shelf_step shelf (saves key entry lifetime now) =
    if (is_empty key || not (is_usable entry)) || leb_ℤ lifetime (pos 0)
    then (shelf, refused err_invalid_request)
    else (
      record shelf {
        held =
            put key (some (record { entry = entry; expire_at = add_time now lifetime })) shelf.held;
      },
      saved,
    )
shelf_step shelf (asks_version key) =
    if is_empty key
    then (shelf, refused err_invalid_request)
    else (shelf, version_is (shelf.counted key))
shelf_step shelf (invalidates key) =
    if is_empty key then (shelf, refused err_invalid_request) else (
      record {
        held = put key none shelf.held;
        counted = put key (next_uint64 (shelf.counted key)) shelf.counted;
      },
      version_is (next_uint64 (shelf.counted key)),
    )

unfoldable pub shelf_replies : Shelf → List Call → List Reply
shelf_replies shelf [] = []
shelf_replies shelf (call ∷ calls) =
    let (next, reply) = shelf_step shelf call in reply ∷ shelf_replies next calls
