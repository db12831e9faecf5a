-- ===== src/Booking/Memory/Reads.antt =====
-- repository_memory.go: the state, the reads, and the helpers that count rows.
use ottodot_trial_booking_se.Prelude.{
  ℕ, Bool, true, false, ◌||◌, not, Option, none, some, List, [], ◌∷◌, map, Text, text_eq, text_ltb,
  ℤ, pos, pos_part, ltb_ℤ, Time, after, ◌==◌, length, take, select, any, tally, lookup, lookup_or,
  insert, sort, if◌then◌else◌,
}
use ottodot_trial_booking_se.Booking.Status.{Status, pending_payment, confirmed, is_live, status_eq}
use ottodot_trial_booking_se.Booking.Errors.{
  Error, Fault, err_class_not_found, err_booking_not_found,
}
use ottodot_trial_booking_se.Booking.Model.{
  Class, Booking, Event, no_booking, no_class, has_seat, hold_is_live, WorklistRequest,
  validate_worklist, is_no_status, ParentBookingsRequest, validate_parent_bookings,
}

pub record Repository : Type 0 where
  pub classes : List (Text × Class)
  pub parents : List (Text × Text)
  pub bookings : List (Text × Booking)
  pub events : List (Text × List Event)
  pub fault : Fault

unfoldable pub new_repository : Repository
new_repository = record { classes = []; parents = []; bookings = []; events = []; fault = none }

unfoldable pub inject_faults : Repository → Fault → Repository
inject_faults repository fault = record repository { fault = fault }

unfoldable pub add_class : Repository → Class → Repository
add_class repository class = record repository {
  classes = insert class.id class repository.classes;
}

unfoldable pub add_student : Repository → Text → Text → Repository
add_student repository student_id parent_id = record repository {
  parents = insert student_id parent_id repository.parents;
}

unfoldable pub get_class : Repository → Text → Class × Option Error
get_class repository class_id = elim (lookup class_id repository.classes) [
  | none ↦ (no_class, some err_class_not_found)
  | some class ↦ (class, none)
]

unfoldable pub get_booking : Repository → Text → Booking × Option Error
get_booking repository booking_id = elim (lookup booking_id repository.bookings) [
  | none ↦ (no_booking, some err_booking_not_found)
  | some stored ↦ (stored, none)
]

-- The row is this child's, in this class, and live.
unfoldable pub is_live_for : Text → Text → Text × Booking → Bool
is_live_for student_id class_id (key, stored) =
    if not (text_eq stored.student_id student_id) || not (text_eq stored.class_id class_id)
    then false
    else is_live stored.status

-- The first live row in the order of the walk.
unfoldable pub first_live : Text → Text → List (Text × Booking) → Booking × Option Error
first_live student_id class_id [] = (no_booking, some err_booking_not_found)
first_live student_id class_id (row ∷ rows) =
    if is_live_for student_id class_id row
    then (row.1, none)
    else first_live student_id class_id rows

unfoldable pub live_booking : Repository → Text → Text → Booking × Option Error
live_booking repository student_id class_id = first_live student_id class_id repository.bookings

unfoldable pub has_live_booking : Repository → Text → Text → Bool
has_live_booking repository student_id class_id =
    any (is_live_for student_id class_id) repository.bookings

-- The row is a hold of this parent that is still standing.
unfoldable pub is_standing_hold : List (Text × Text) → Text → Time → Text × Booking → Bool
unfolding hold_is_live
is_standing_hold parents parent_id now (key, stored) =
    if not (text_eq (lookup_or [] stored.student_id parents) parent_id)
    then false
    else if not (status_eq stored.status pending_payment)
    then false
    else hold_is_live stored.hold_expires_at now

unfoldable pub live_holds_for_parent : Repository → Text → Time → ℕ
live_holds_for_parent repository parent_id now =
    tally (is_standing_hold repository.parents parent_id now) repository.bookings

abbrev holds_place : Status → Bool → Bool
holds_place confirmed standing = true
holds_place pending_payment standing = standing
holds_place _ standing = false

-- The row counts against the places of the class.
unfoldable pub is_holder : Text → Time → Text × Booking → Bool
unfolding hold_is_live
is_holder class_id now (key, stored) =
    if not (text_eq stored.class_id class_id)
    then false
    else holds_place stored.status (hold_is_live stored.hold_expires_at now)

unfoldable pub holders : Repository → Text → Time → ℕ
holders repository class_id now = tally (is_holder class_id now) repository.bookings

-- The row has a seat in the class.
unfoldable pub sits_in : Text → Text × Booking → Bool
unfolding has_seat
sits_in class_id (key, stored) =
    if not (text_eq stored.class_id class_id) || not (has_seat stored) then false else true

abbrev pub seat_less : ℤ → ℤ → Bool
seat_less first second = ltb_ℤ first second

unfoldable pub seats_taken : Repository → Text → List ℤ
seats_taken repository class_id =
    sort seat_less (map (λ row. row.1.seat_no) (select (sits_in class_id) repository.bookings))

unfoldable pub get_events : Repository → Text → List Event
get_events repository booking_id = lookup_or [] booking_id repository.events

unfoldable pub newest_first : Booking → Booking → Bool
unfolding text_ltb
newest_first first second =
    if not (first.created_at == second.created_at)
    then after first.created_at second.created_at
    else text_ltb second.id first.id

unfoldable pub sort_newest_first : List Booking → List Booking
sort_newest_first listed = sort newest_first listed

-- `if len(matched) > limit { matched = matched[:limit] }`
unfoldable pub at_most : ℤ → List Booking → List Booking
at_most limit matched =
    if ltb_ℤ limit (pos (length matched)) then take (pos_part limit) matched else matched

unfoldable pub worklist : Repository → WorklistRequest → List Booking × Option Error
worklist repository request = elim (validate_worklist request) [
  | some err ↦ ([], some err)
  | none ↦ (
    at_most request.limit (
        sort_newest_first (
          select (λ stored. is_no_status request.status || status_eq stored.status request.status)
            (map (λ row. row.1) repository.bookings))),
    none,
  )
]

unfoldable pub parent_bookings : Repository → ParentBookingsRequest → List Booking × Option Error
parent_bookings repository request = elim (validate_parent_bookings request) [
  | some err ↦ ([], some err)
  | none ↦ (
    at_most request.limit (
        sort_newest_first (
          select
            (λ stored.
              text_eq (lookup_or [] stored.student_id repository.parents) request.parent_id)
            (map (λ row. row.1) repository.bookings))),
    none,
  )
]
