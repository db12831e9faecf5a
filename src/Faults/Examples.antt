-- ===== src/Faults/Examples.antt =====
-- Runs of the registry on concrete inputs.
use ottodot_trial_booking_se.Prelude.{List, Text-discrete, [], codes, pos, refl, ◌∷◌, ◌≤ℤ◌, ◌≤◌}
use ottodot_trial_booking_se.Faults.{ArmRequest, arm, is_known_point, points}
use ottodot_trial_booking_se.Faults.Bound.{Call, triggers, fires}
use ottodot_trial_booking_se.Faults.Fires.{armed_fires_at_most}

abbrev twice : ArmRequest
twice = record { point = codes "queue.job_error"; count = pos 2; lifetime = pos 0 }

abbrev three_tries : List Call
three_tries =
    triggers (codes "queue.job_error") 11
    ∷ triggers (codes "queue.job_error") 12
    ∷ triggers (codes "queue.job_error") 13
    ∷ []

armed_fires_at_most_example :
    (pos (fires twice.point (arm [] twice 10).0 three_tries) ≤ℤ (arm [] twice 10).1.remaining)
    × (fires twice.point (arm [] twice 10).0 three_tries ≤ 10)
unfolding arm is_known_point points Text-discrete
armed_fires_at_most_example =
    armed_fires_at_most [] twice 10 three_tries tt refl (tt, (tt, (tt, tt)))
