-- ===== src/Prelude/Ascii.antt =====
-- Strings that every text encoding keeps as they are: all their bytes are ASCII.
use Prim.Native.Nat.{◌<◌}
use ottodot_trial_booking_se.Prelude.Texts.{Text}
use ottodot_trial_booking_se.Prelude.Lists.{All}

abbrev pub IsAscii : Text → Type 0
IsAscii = All (λ c. c < 128)
