-- ===== src/Payment/Memory/Keys.antt =====
-- repository_memory.go: the calls of any callers, and the ways in which begin and settle end.
use ottodot_trial_booking_se.Prelude.{
  arith, Bool, Bool-cases, List, Option, Option-cases, [], false, if◌then◌else◌, inl, inr, insert,
  is_empty, lookup, none, not, refl, some, true, ◌++◌, ◌||◌, ◌∷◌, ◌≡◌,
}
use ottodot_trial_booking_se.Payment.Model.{
  Attempt, BeginRequest, Error, SettleRequest, err_idempotency_conflict, is_settled, no_attempt,
  same_as, validate_amount, validate_idempotency_key, validate_settle,
}
use ottodot_trial_booking_se.Payment.Memory.{
  Repository, begin, by_key, opened_of, settle, settled_of,
}

-- A call of the repository, by any caller.
pub data Call : Type 0 where
  begins : BeginRequest → Call
  settles : SettleRequest → Call

unfoldable pub step : Repository → Call → Repository
step repository (begins request) = (begin repository request).0
step repository (settles request) = (settle repository request).0

unfoldable pub run : Repository → List Call → Repository
run repository [] = repository
run repository (call ∷ calls) = run (step repository call) calls

-- Every identifier that is begun with is new.
abbrev pub IsFresh : Repository → Call → Type 0
IsFresh repository (begins request) = lookup request.attempt_id repository.attempts ≡ none
IsFresh repository (settles request) = Unit {0}

abbrev pub AllFresh : Repository → List Call → Type 0
AllFresh repository [] = Unit {0}
AllFresh repository (call ∷ calls) = IsFresh repository call × AllFresh (step repository call) calls

abbrev pub Begun : Type 0
Begun = Repository × Attempt × Bool × Option Error

abbrev pub opened_in : Repository → Attempt → Repository
opened_in repository row = record repository {
  attempts = insert row.id row repository.attempts;
  order = repository.order ++ row.id ∷ [];
}

-- The three ways in which begin ends.
module _ (repository : Repository) (request : BeginRequest) (P : Begun → Type 0)
    (refused : (err : Error) → P (repository, no_attempt, false, some err))
    (replays : (stored : Attempt)
      → lookup request.booking_id repository.bookings ≡ some tt
      → by_key repository request.booking_id request.idempotency_key ≡ some stored
      → same_as stored.amount request.amount ≡ true
      → P (repository, stored, true, none))
    (opens : lookup request.booking_id repository.bookings ≡ some tt
      → by_key repository request.booking_id request.idempotency_key ≡ none
      → P (opened_in repository (opened_of request), opened_of request, false, none)) where
  on_key :
      (found : Option Attempt)
      → lookup request.booking_id repository.bookings ≡ some tt
      → by_key repository request.booking_id request.idempotency_key ≡ found
      → P (elim found as (λ _. Repository × Attempt × Bool × Option Error) [
        | some stored ↦
            if not (same_as stored.amount request.amount)
            then (repository, no_attempt, false, some err_idempotency_conflict)
            else (repository, stored, true, none)
        | none ↦ (
          record repository {
            attempts = insert request.attempt_id (opened_of request) repository.attempts;
            order = repository.order ++ request.attempt_id ∷ [];
          },
          opened_of request,
          false,
          none,
        )
      ])
  on_key none b e = unfold opened_of in opens b e
  on_key (some stored) b e = elim (Bool-cases (not (same_as stored.amount request.amount))) [
    | inl t ↦ rw t (refused err_idempotency_conflict)
    | inr t ↦ rw t (replays stored b e (ground arith))
  ]

  pub on_begin : P (begin repository request)
  unfolding begin
  on_begin = elim (Bool-cases (is_empty request.attempt_id || is_empty request.booking_id)) [
    | inl t ↦ rw t (refused _)
    | inr t ↦ rw t (elim (Option-cases (validate_idempotency_key request.idempotency_key)) [
      | inr (err, k) ↦ rw k (refused err)
      | inl k ↦ rw k (elim (Option-cases (validate_amount request.amount)) [
        | inr (err, a) ↦ rw a (refused err)
        | inl a ↦ rw a (elim (Option-cases (lookup request.booking_id repository.bookings)) [
          | inl b ↦ rw b (refused _)
          | inr (known, b) ↦ rw b (on_key _ b refl)
        ])
      ])
    ])
  ]

abbrev pub Settled : Type 0
Settled = Repository × Attempt × Option Error

-- The two ways in which settle ends.
module _ (repository : Repository) (request : SettleRequest) (P : Settled → Type 0)
    (refused : (a : Attempt) (err : Error) → P (repository, a, some err))
    (writes : (stored : Attempt)
      → lookup request.attempt_id repository.attempts ≡ some stored
      → is_settled stored.status ≡ false
      → P (
        record repository {
          attempts = insert stored.id (settled_of stored request) repository.attempts;
        },
        settled_of stored request,
        none,
      )) where
  pub on_settle : P (settle repository request)
  unfolding settle
  on_settle = elim (Option-cases (validate_settle request)) [
    | inr (err, k) ↦ rw (k, settle) (refused _ err)
    | inl k ↦
        rw (k, settle)
          (elim (Option-cases (lookup request.attempt_id repository.attempts)) [
            | inl e ↦ rw (e, settle) (refused _ _)
            | inr (stored, e) ↦
                rw (e, settle)
                  (elim (Bool-cases (is_settled stored.status)) [
                    | inl t ↦ rw (t, settle) (refused _ _)
                    | inr t ↦ rw (t, settle) (writes stored e t)
                  ])
          ])
  ]
