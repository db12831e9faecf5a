-- ===== src/Roster/Examples.antt =====
-- Runs of a roster on concrete inputs.
use ottodot_trial_booking_se.Roster.{Entry, add_class, new_reader, for_class, seats_taken}
use ottodot_trial_booking_se.Roster.Sorted.{IsRising, add_all, lists_in_seat_order}
use ottodot_trial_booking_se.Roster.{for_class, new_reader}
use ottodot_trial_booking_se.Prelude.{Perm, [], codes, lookup, none, pos, refl, ◌∷◌, ◌≡◌}

abbrev seat_two : Entry
seat_two = record {
  seat_no = pos 2;
  student_id = codes "s";
  student_name = codes "Ann";
  confirmed_at = 5;
}

abbrev seat_one : Entry
seat_one = record {
  seat_no = pos 1;
  student_id = codes "t";
  student_name = codes "Ben";
  confirmed_at = 6;
}

lists_in_seat_order_example :
    let listed =
      for_class
        (add_all (add_class new_reader (codes "c") (pos 2)) (codes "c") (seat_two ∷ seat_one ∷ []))
        (codes "c") in
    (listed.1 ≡ none)
    × (listed.0.capacity ≡ pos 2)
    × IsRising listed.0.entries
    × Perm listed.0.entries (seat_two ∷ seat_one ∷ [])
    × (seats_taken listed.0 ≡ 2)
unfolding lookup
lists_in_seat_order_example =
    lists_in_seat_order new_reader (codes "c") (pos 2) (seat_two ∷ seat_one ∷ []) refl
