-- ===== src/Booking/Status.antt =====
-- backend/internal/booking/status.go: the lifecycle of a booking.
-- A Go `Status` is a string. The six constants are constructors; `other` is any other string, the
-- empty one included, which stands for "no status" in an event and for "any" in a worklist.
use ottodot_trial_booking_se.Prelude.{
  Bool, true, false, ◌&&◌, ◌||◌, Option, none, some, List, [], ◌∷◌, Text, text_eq, length, any,
  is_some, ◌==◌,
}

pub data Status : Type 0 where
  pending_payment confirmed payment_failed refund_required expired cancelled : Status
  other : Text → Status

abbrev pub no_status : Status
no_status = other []

abbrev pub status_eq : Status → Status → Bool
status_eq pending_payment pending_payment = true
status_eq confirmed confirmed = true
status_eq payment_failed payment_failed = true
status_eq refund_required refund_required = true
status_eq expired expired = true
status_eq cancelled cancelled = true
status_eq (other a) (other b) = text_eq a b
status_eq _ _ = false

-- The table: each known status with the statuses it may move to.
unfoldable pub allowed_transitions : Status → Option (List Status)
allowed_transitions pending_payment =
    some (confirmed ∷ payment_failed ∷ refund_required ∷ expired ∷ cancelled ∷ [])
allowed_transitions confirmed = some (cancelled ∷ [])
allowed_transitions refund_required = some (cancelled ∷ [])
allowed_transitions payment_failed = some []
allowed_transitions expired = some []
allowed_transitions cancelled = some []
allowed_transitions (other a) = none

unfoldable pub is_known : Status → Bool
unfolding allowed_transitions
is_known status = is_some (allowed_transitions status)

abbrev destinations : Option (List Status) → List Status
destinations none = []
destinations (some l) = l

unfoldable pub is_terminal : Status → Bool
unfolding is_known allowed_transitions
is_terminal status = is_known status && (length (destinations (allowed_transitions status)) == 0)

unfoldable pub is_live : Status → Bool
is_live status = status_eq status pending_payment || status_eq status confirmed

abbrev permits : Option (List Status) → Status → Bool
permits none to = false
permits (some l) to = is_known to && any (status_eq to) l

unfoldable pub can_transition : Status → Status → Bool
unfolding is_known allowed_transitions
can_transition from to = permits (allowed_transitions from) to

unfoldable pub all_statuses : List Status
all_statuses =
    pending_payment ∷ confirmed ∷ payment_failed ∷ refund_required ∷ expired ∷ cancelled ∷ []
