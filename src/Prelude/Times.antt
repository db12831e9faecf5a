-- ===== src/Prelude/Times.antt =====
-- `time.Time` as nanoseconds since Go's zero instant, so the zero value is 0. `time.Duration` is an
-- integer of nanoseconds. Instants before the zero instant are not represented.
use Prim.Native.Nat.{ℕ, suc, ◌+◌, ◌-◌, ◌*◌}
use mathlib.Core.Bool.{Bool}
use ottodot_trial_booking_se.Prelude.Tests.{ltb, ◌==◌}
use ottodot_trial_booking_se.Prelude.Int.{ℤ, pos, negsuc}

abbrev pub Time : Type 0
Time = ℕ

abbrev pub Duration : Type 0
Duration = ℤ

abbrev pub is_zero : Time → Bool
is_zero t = t == 0

-- `a.After(b)` and `a.Before(b)`
abbrev pub after : Time → Time → Bool
after a b = ltb b a

abbrev pub before : Time → Time → Bool
before a b = ltb a b

-- `t.Add(d)`
abbrev pub add_time : Time → Duration → Time
add_time t (pos n) = t + n
add_time t (negsuc n) = t - suc n

abbrev pub seconds : ℕ → Duration
seconds n = pos (n * 1000000000)

abbrev pub minutes : ℕ → Duration
minutes n = pos (n * 60000000000)
