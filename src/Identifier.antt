-- ===== src/Identifier.antt =====
-- backend/internal/identifier: what a call of NewUUIDv7 gave. The call reads the clock and the
-- system's randomness, so its answer is an argument of the operations that make it.
use ottodot_trial_booking_se.Prelude.{Text}

pub data Minted : Type 0 where
  minted : Text → Minted
  mint_failed : Text → Minted
