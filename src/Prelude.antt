-- ===== src/Prelude.antt =====
-- The names that the other modules share: the libraries', passed on, and those of the children.
pub mod Tests
pub mod Texts
pub mod Int
pub mod Times
pub mod Lists
pub mod Ascii
pub mod Assoc
pub mod Keys
pub mod Sort
pub mod Counting
pub use Tests.{ltb, leb, ◌==◌, if◌then◌else◌, ltb→lt, leb→le, Bool-cases, Option-cases, is_some}
pub use Texts.{Text, codes, text_eq, is_empty, text_cases, ne_of_text_eq, text_eq_refl, is_empty→eq}
unfoldable pub use Texts.{Text-discrete, text_ltb}
pub use Int.{ℤ, pos, negsuc, pos_part, neg_part, sub_ℕ, ◌≤ℤ◌, ◌<ℤ◌, leb_ℤ, ltb_ℤ, eq_ℤ}
pub use Int.{eq_ℤ→eq, eq_ℤ_refl, to_int16_small}
unfoldable pub use Int.{◌+ℤ◌, ◌-ℤ◌, to_int16}
pub use Times.*
pub use Lists.*
pub use Ascii.{IsAscii}
pub use Assoc.{
  lookup_or, lookup-insert, lookup-insert_self, lookup-insert_ne, lookup_or-insert_self,
  lookup_or-insert_ne, lookup-All, insert-All, Keyed, insert-Pairwise, lookup-Pairwise, delete-All,
  delete-Pairwise, tally-insert_new, tally-insert_old,
}
pub use Keys.*
unfoldable pub use Assoc.{lookup, insert, delete}
unfoldable pub use Sort.{insert_by, sort}
pub use Counting.{Upto, Upto-map, length-le_of_within, le-length_of_Upto}
pub use Sort.{
  sort-perm, length-sort, sort-All, All-sort, sort-Pairwise, IsSorted, IsOrder, sort-IsSorted,
}
pub use Prim.Native.Nat.{ℕ, zero, suc, ◌+◌, ◌-◌, ◌*◌, ◌/◌, ◌%◌, ◌≤◌, ◌<◌}
pub use mathlib.Core.Path.{◌≡◌, refl, sym, ap, ◌∙◌, subst}
pub use mathlib.Core.Logic.{◌≢◌, ◌↔◌, ◌⊎◌, inl, inr}
pub use mathlib.Core.Bool.{Bool, true, false, ◌&&◌, ◌||◌, not}
pub use mathlib.Core.Option.{Option, none, some, some-injective}
pub use mathlib.Core.List.{List, [], ◌∷◌, ◌++◌, map, Perm}
pub use native.Mathlib.Omega.{arith}
