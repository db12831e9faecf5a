-- ===== src/Cache/Examples.antt =====
-- Runs of the cache on concrete inputs.
use ottodot_trial_booking_se.Cache.Gone.{invalidated_stays_gone, store_run}
use ottodot_trial_booking_se.Cache.{Store, get_entry, invalidate, new_store}
use ottodot_trial_booking_se.Prelude.{
  Text-discrete, false, ne_of_text_eq, none, refl, List, [], arith, codes, pos, ◌∷◌, ◌≡◌,
}
use ottodot_trial_booking_se.Cache.Shelf.{
  Call, asks_version, empty_shelf, invalidates, reads, saves, shelf_replies,
}
use ottodot_trial_booking_se.Cache.Refines.{new_store-refines_shelf, store_replies}
use ottodot_trial_booking_se.Cache.{Entry}

abbrev body : Entry
body = record { etag = codes "v"; payload = codes "x" }

abbrev day : List Call
day =
    saves (codes "k") body (pos 10) 5
    ∷ reads (codes "k") 6
    ∷ asks_version (codes "k")
    ∷ invalidates (codes "k")
    ∷ reads (codes "k") 7
    ∷ saves (codes "k") body (pos 10) 8
    ∷ reads (codes "k") 18
    ∷ []

new_store-refines_shelf_example : store_replies new_store day ≡ shelf_replies empty_shelf day
new_store-refines_shelf_example =
    new_store-refines_shelf day (omega arith, (omega arith, (omega arith, tt)))

abbrev filled : Store
filled = record {
  entries = (codes "k", record { entry = body; expire_at = 15 }) ∷ [];
  versions = [];
}

invalidated_stays_gone_example :
    ((get_entry
        (store_run (invalidate filled (codes "k")).0 (saves (codes "l") body (pos 10) 5 ∷ []))
        (codes "k")
        6).2
      ≡ false)
    × ((get_entry
          (store_run (invalidate filled (codes "k")).0 (saves (codes "l") body (pos 10) 5 ∷ []))
          (codes "k")
          6).3
        ≡ none)
unfolding invalidate
invalidated_stays_gone_example =
    invalidated_stays_gone filled (codes "k") (saves (codes "l") body (pos 10) 5 ∷ []) 6 ((tt, tt))
      refl (ne_of_text_eq _ _ (unfold Text-discrete in refl), tt)
