-- ===== src/Payment/Memory.antt =====
-- backend/internal/payment/repository_memory.go: the attempts under one mutex.
pub mod Laws
pub mod Keys
pub mod Once
use ottodot_trial_booking_se.Prelude.{
  Bool, List, Option, Text, [], false, if◌then◌else◌, insert, is_empty, lookup, lookup_or, map,
  none, not, select, some, text_eq, true, ◌&&◌, ◌++◌, ◌||◌, ◌∷◌,
}
use ottodot_trial_booking_se.Payment.Model.{
  Attempt, BeginRequest, Error, SettleRequest, err_already_settled, err_attempt_not_found,
  err_booking_not_found, err_idempotency_conflict, err_invalid_request, initiated, is_settled,
  no_attempt, normalised, same_as, validate_amount, validate_idempotency_key, validate_settle,
}

pub record Repository : Type 0 where
  pub bookings : List (Text × Unit {0})
  pub attempts : List (Text × Attempt)
  pub order : List Text

unfoldable pub new_repository : Repository
new_repository = record { bookings = []; attempts = []; order = [] }

unfoldable pub add_booking : Repository → Text → Repository
add_booking repository booking_id = record repository {
  bookings = insert booking_id tt repository.bookings;
}

unfoldable pub get_attempt : Repository → Text → Attempt × Option Error
get_attempt repository attempt_id = elim (lookup attempt_id repository.attempts) [
  | none ↦ (no_attempt, some err_attempt_not_found)
  | some stored ↦ (stored, none)
]

-- The tests of attemptByKeyLocked on the stored attempt.
abbrev pub has_key : Text → Text → Attempt → Bool
has_key booking_id key stored =
    text_eq stored.booking_id booking_id && text_eq stored.idempotency_key key

-- attemptByKeyLocked: the walk along the insertion order.
unfoldable pub walk_keys : List (Text × Attempt) → Text → Text → List Text → Option Attempt
walk_keys attempts booking_id key [] = none
walk_keys attempts booking_id key (attempt_id ∷ ids) =
    let stored = lookup_or no_attempt attempt_id attempts in
    if has_key booking_id key stored then some stored else walk_keys attempts booking_id key ids

unfoldable pub by_key : Repository → Text → Text → Option Attempt
by_key repository booking_id key = walk_keys repository.attempts booking_id key repository.order

unfoldable pub attempt_by_key : Repository → Text → Text → Attempt × Option Error
attempt_by_key repository booking_id key = elim (by_key repository booking_id key) [
  | none ↦ (no_attempt, some err_attempt_not_found)
  | some stored ↦ (stored, none)
]

unfoldable pub attempts_for : Repository → Text → List Attempt
attempts_for repository booking_id =
    select (λ stored. text_eq stored.booking_id booking_id)
      (map (λ attempt_id. lookup_or no_attempt attempt_id repository.attempts) repository.order)

unfoldable pub opened_of : BeginRequest → Attempt
opened_of request = record {
  id = request.attempt_id;
  booking_id = request.booking_id;
  idempotency_key = request.idempotency_key;
  amount = normalised request.amount;
  status = initiated;
  provider_ref = [];
  failure_reason = [];
  created_at = request.now;
  settled_at = 0;
}

unfoldable pub begin : Repository → BeginRequest → Repository × Attempt × Bool × Option Error
begin repository request =
    if is_empty request.attempt_id || is_empty request.booking_id
    then (repository, no_attempt, false, some err_invalid_request)
    else elim (validate_idempotency_key request.idempotency_key) [
      | some err ↦ (repository, no_attempt, false, some err)
      | none ↦ elim (validate_amount request.amount) [
        | some err ↦ (repository, no_attempt, false, some err)
        | none ↦ elim (lookup request.booking_id repository.bookings) [
          | none ↦ (repository, no_attempt, false, some err_booking_not_found)
          | some known ↦ elim (by_key repository request.booking_id request.idempotency_key) [
            | some stored ↦
                if not (same_as stored.amount request.amount)
                then (repository, no_attempt, false, some err_idempotency_conflict)
                else (repository, stored, true, none)
            | none ↦ (
              record repository {
                attempts = insert request.attempt_id (opened_of request) repository.attempts;
                order = repository.order ++ request.attempt_id ∷ [];
              },
              opened_of request,
              false,
              none,
            )
          ]
        ]
      ]
    ]

unfoldable pub settled_of : Attempt → SettleRequest → Attempt
settled_of stored request = record stored {
  status = request.status;
  provider_ref = request.provider_ref;
  failure_reason = request.failure_reason;
  settled_at = request.now;
}

unfoldable pub settle : Repository → SettleRequest → Repository × Attempt × Option Error
settle repository request = elim (validate_settle request) [
  | some err ↦ (repository, no_attempt, some err)
  | none ↦ elim (lookup request.attempt_id repository.attempts) [
    | none ↦ (repository, no_attempt, some err_attempt_not_found)
    | some stored ↦
        if is_settled stored.status then (repository, stored, some err_already_settled) else (
          record repository {
            attempts = insert stored.id (settled_of stored request) repository.attempts;
          },
          settled_of stored request,
          none,
        )
  ]
]
