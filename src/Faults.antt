-- ===== src/Faults.antt =====
-- backend/internal/faults: points.go and registry.go, the failures that a demonstration arms. The
-- clock's answer is an argument, and the report of a fault that fired has no part in the answer.
use ottodot_trial_booking_se.Prelude.{
  Bool, Duration, List, Option, Text, Time, [], add_time, any, before, codes, delete, eq_ℤ, false,
  if◌then◌else◌, insert, leb_ℤ, lookup, ltb_ℤ, map, minutes, none, not, pos, seconds, select, some,
  text_eq, true, ℤ, ◌-ℤ◌, ◌||◌, ◌∷◌,
}
use ottodot_trial_booking_se.Payment.Provider.{provider_error}
use ottodot_trial_booking_se.Booking.Model.{payment}
use ottodot_trial_booking_se.Booking.Memory.Writes.{confirm}
pub mod Bound
pub mod Steps
pub mod Fires
mod Examples

-- The five points.
unfoldable pub points : List Text
points =
    codes "confirm.before_commit"
    ∷ codes "confirm.lock_wait"
    ∷ codes "payment.provider_error"
    ∷ codes "queue.job_error"
    ∷ codes "cache.redis_error"
    ∷ []

unfoldable pub is_known_point : Text → Bool
unfolding points
is_known_point point = any (λ known_point. text_eq known_point point) points

pub data Error : Type 0 where
  err_unknown_point err_invalid_request : Error

abbrev pub default_count : ℤ
default_count = pos 1

abbrev pub max_count : ℤ
max_count = pos 10

abbrev pub default_lifetime : Duration
default_lifetime = seconds 60

abbrev pub max_lifetime : Duration
max_lifetime = minutes 10

pub record ArmRequest : Type 0 where
  pub point : Text
  pub count : ℤ
  pub lifetime : Duration

-- `Armed`, which `List` and `Arm` answer.
pub record Armed : Type 0 where
  pub point : Text
  pub remaining : ℤ
  pub expires_at : Time

abbrev pub no_armed : Armed
no_armed = record { point = []; remaining = pos 0; expires_at = 0 }

-- `armed`, the row of a point.
pub record Live : Type 0 where
  pub remaining : ℤ
  pub expires_at : Time

-- `Registry` is its one field that the calls change.
abbrev pub Registry : Type 0
Registry = List (Text × Live)

unfoldable pub new_registry : Registry
new_registry = []

-- A zero asks for the default.
abbrev pub or_default : ℤ → ℤ → ℤ
or_default given default = if eq_ℤ given (pos 0) then default else given

unfoldable pub armed_of : ArmRequest → Time → Live
armed_of request now = record {
  remaining = or_default request.count default_count;
  expires_at = add_time now (or_default request.lifetime default_lifetime);
}

-- The bounds of Arm.
abbrev pub out_of_bounds : ℤ → Duration → Bool
out_of_bounds count lifetime =
    (ltb_ℤ count (pos 1) || ltb_ℤ max_count count)
    || (ltb_ℤ lifetime (pos 0) || ltb_ℤ max_lifetime lifetime)

unfoldable pub arm : Registry → ArmRequest → Time → Registry × Armed × Option Error
arm registry request now =
    if not (is_known_point request.point)
    then (registry, no_armed, some err_unknown_point)
    else if out_of_bounds (or_default request.count default_count)
        (or_default request.lifetime default_lifetime)
    then (registry, no_armed, some err_invalid_request)
    else (
      insert request.point (armed_of request now) registry,
      record {
        point = request.point;
        remaining = or_default request.count default_count;
        expires_at = add_time now (or_default request.lifetime default_lifetime);
      },
      none,
    )

-- Trigger, once the row is live: it is counted down, and dropped at the last count.
unfoldable pub count_down : Registry → Text → Live → Registry
count_down registry point live =
    if leb_ℤ (live.remaining -ℤ pos 1) (pos 0)
    then delete point registry
    else insert point (record live { remaining = live.remaining -ℤ pos 1 }) registry

unfoldable pub trigger : Registry → Text → Time → Registry × Bool
trigger registry point now = elim (lookup point registry) [
  | none ↦ (registry, false)
  | some live ↦
      if not (before now live.expires_at)
      then (delete point registry, false)
      else (count_down registry point live, true)
]

-- The nil registry fires nothing.
unfoldable pub trigger_of : Option Registry → Text → Time → Option Registry × Bool
trigger_of none point now = (none, false)
trigger_of (some registry) point now =
    let (next, fired) = trigger registry point now in (some next, fired)

abbrev pub is_standing : Time → Text × Live → Bool
is_standing now row = before now row.1.expires_at

-- List drops the expired rows.
unfoldable pub list_armed : Registry → Time → Registry × List Armed
list_armed registry now =
    let kept = select (is_standing now) registry in
    (
      kept,
      map
          (λ row. record {
            point = row.0;
            remaining = row.1.remaining;
            expires_at = row.1.expires_at;
          })
          kept,
    )

unfoldable pub disarm : Registry → Registry
disarm registry = []
