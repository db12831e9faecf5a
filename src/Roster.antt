-- ===== src/Roster.antt =====
-- backend/internal/roster: model.go, errors.go and reader_memory.go, the children who sit in a class.
use ottodot_trial_booking_se.Prelude.{
  Bool, List, Option, Text, Time, [], insert, length, lookup, lookup_or, ltb_ℤ, none, pos, some,
  sort, ℕ, ℤ, ◌++◌, ◌∷◌,
}
pub mod Sorted
mod Examples

pub data Error : Type 0 where
  err_invalid_request err_class_not_found : Error

pub record Entry : Type 0 where
  pub seat_no : ℤ
  pub student_id : Text
  pub student_name : Text
  pub confirmed_at : Time

pub record Roster : Type 0 where
  pub class_id : Text
  pub capacity : ℤ
  pub entries : List Entry

abbrev pub no_roster : Roster
no_roster = record { class_id = []; capacity = pos 0; entries = [] }

unfoldable pub seats_taken : Roster → ℕ
seats_taken roster = length roster.entries

-- `MemoryReader` is its two maps.
pub record Reader : Type 0 where
  pub capacities : List (Text × ℤ)
  pub entries : List (Text × List Entry)

abbrev pub new_reader : Reader
new_reader = record { capacities = []; entries = [] }

unfoldable pub add_class : Reader → Text → ℤ → Reader
add_class reader class_id capacity = record reader {
  capacities = insert class_id capacity reader.capacities;
}

unfoldable pub add_entry : Reader → Text → Entry → Reader
add_entry reader class_id entry = record reader {
  entries = insert class_id (lookup_or [] class_id reader.entries ++ entry ∷ []) reader.entries;
}

-- The comparison of For.
abbrev pub by_seat : Entry → Entry → Bool
by_seat first second = ltb_ℤ first.seat_no second.seat_no

-- `For`
unfoldable pub for_class : Reader → Text → Roster × Option Error
for_class reader class_id = elim (lookup class_id reader.capacities) [
  | none ↦ (no_roster, some err_class_not_found)
  | some capacity ↦ (
    record {
      class_id = class_id;
      capacity = capacity;
      entries = sort by_seat (lookup_or [] class_id reader.entries);
    },
    none,
  )
]
