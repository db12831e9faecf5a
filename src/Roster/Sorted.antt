-- ===== src/Roster/Sorted.antt =====
-- reader_memory.go: what a roster lists, and in which order.
use mathlib.Core.List.{append-nil, append_assoc}
use ottodot_trial_booking_se.Prelude.{
  Pairwise, Pairwise-impl, ◌≤ℤ◌, sym, length-sort, sort, sort-IsSorted, sort-perm, subst, IsOrder,
  IsSorted, List, Perm, Text, [], ap, arith, false, length, lookup, lookup-insert_self, lookup_or,
  lookup_or-insert_self, ltb_ℤ, none, refl, some, true, ℤ, ◌++◌, ◌∙◌, ◌∷◌, ◌≡◌,
}
use ottodot_trial_booking_se.Roster.{
  Entry, Reader, add_class, add_entry, by_seat, for_class, seats_taken,
}

unfoldable pub add_all : Reader → Text → List Entry → Reader
add_all reader class_id [] = reader
add_all reader class_id (entry ∷ entries) =
    add_all (add_entry reader class_id entry) class_id entries

-- No entry stands before one with a lower seat.
abbrev pub IsRising : List Entry → Type 0
IsRising = Pairwise (λ a b. a.seat_no ≤ℤ b.seat_no)

by_seat-IsRising : (entries : List Entry) → IsSorted by_seat entries → IsRising entries
by_seat-IsRising entries h =
    Pairwise-impl (λ a b. by_seat b a ≡ false) (λ a b. a.seat_no ≤ℤ b.seat_no) entries
      (λ a b e. rises a.seat_no b.seat_no e) h
  where
    rises : (x y : ℤ) → ltb_ℤ y x ≡ false → x ≤ℤ y
    rises x y e = ground arith

by_seat-IsOrder : IsOrder by_seat
by_seat-IsOrder =
    ((λ a b. later a.seat_no b.seat_no), (λ a b c. chain a.seat_no b.seat_no c.seat_no))
  where
    later : (a b : ℤ) → ltb_ℤ a b ≡ true → ltb_ℤ b a ≡ false
    later a b e = ground arith

    chain : (a b c : ℤ) → ltb_ℤ b a ≡ false → ltb_ℤ c b ≡ false → ltb_ℤ c a ≡ false
    chain a b c e f = ground arith

add_all-capacities :
    (reader : Reader) (class_id : Text) (added : List Entry)
    → (add_all reader class_id added).capacities ≡ reader.capacities
unfolding add_all add_entry
add_all-capacities reader class_id [] = refl
add_all-capacities reader class_id (entry ∷ added) =
    add_all-capacities (add_entry reader class_id entry) class_id added

add_all-entries :
    (reader : Reader) (class_id : Text) (added : List Entry)
    → lookup_or [] class_id (add_all reader class_id added).entries
      ≡ lookup_or [] class_id reader.entries ++ added
unfolding add_all add_entry
add_all-entries reader class_id [] = sym (append-nil (lookup_or [] class_id reader.entries))
add_all-entries reader class_id (entry ∷ added) =
    let rows = lookup_or [] class_id reader.entries in
    add_all-entries (add_entry reader class_id entry) class_id added
    ∙ ap (λ r. r ++ added) (lookup_or-insert_self [] class_id (rows ++ entry ∷ []) reader.entries)
    ∙ append_assoc rows (entry ∷ []) added

-- For a class that was added and has no entry yet: once entries were added to it, For answers, without
-- an error and with its capacity, exactly these entries, in the order of their seats, and as many are
-- counted as taken.
pub lists_in_seat_order :
    (reader : Reader) (class_id : Text) (capacity : ℤ) (added : List Entry)
    → lookup class_id reader.entries ≡ none
    → let listed =
        for_class (add_all (add_class reader class_id capacity) class_id added) class_id in
      (listed.1 ≡ none)
      × (listed.0.capacity ≡ capacity)
      × IsRising listed.0.entries
      × Perm listed.0.entries added
      × (seats_taken listed.0 ≡ length added)
unfolding for_class add_class seats_taken
lists_in_seat_order reader class_id capacity added e =
    let reader' = add_class reader class_id capacity in
    let known : lookup class_id (add_all reader' class_id added).capacities ≡ some capacity =
      ap (lookup class_id) (add_all-capacities reader' class_id added)
      ∙ lookup-insert_self class_id capacity reader.capacities in
    let rows : lookup_or [] class_id (add_all reader' class_id added).entries ≡ added =
      add_all-entries reader' class_id added ∙ rw (e, lookup_or) refl in
    let perm = sort-perm by_seat (lookup_or [] class_id (add_all reader' class_id added).entries) in
    rw (known, for_class)
      (
        refl,
        refl,
        by_seat-IsRising _ (
            sort-IsSorted by_seat (lookup_or [] class_id (add_all reader' class_id added).entries)
              by_seat-IsOrder),
        subst
            (λ r.
              Perm (sort by_seat (lookup_or [] class_id (add_all reader' class_id added).entries))
                r)
            rows perm,
        length-sort by_seat (lookup_or [] class_id (add_all reader' class_id added).entries)
            ∙ ap length rows,
      )
