-- ===== src/Payment/Service/Replay.antt =====
-- service.go: Pay on a key that already has its answer.
use ottodot_trial_booking_se.Prelude.{
  Bool-cases, eq_ℤ_refl, inl, inr, text_eq_refl, List, Text, Time, [], arith, false, is_empty,
  lookup, none, refl, some, true, ◌++◌, ◌∷◌, ◌≡◌,
}
use ottodot_trial_booking_se.Payment.Service.{PayCommand, Payments, begin_request, pay, replay_of}
use ottodot_trial_booking_se.Payment.Provider.{answer}
use ottodot_trial_booking_se.Payment.Model.{
  Amount, Attempt, is_settled, normalised, same_as, validate_amount, validate_idempotency_key,
}
use ottodot_trial_booking_se.Payment.Memory.{Repository, begin, by_key, walk_keys}
use ottodot_trial_booking_se.Identifier.{minted}

-- A walk that found nothing goes on into what was appended.
pub walk_keys-append_none :
    (attempts : List (Text × Attempt)) (booking_id key : Text) (ids rest : List Text)
    → walk_keys attempts booking_id key ids ≡ none
    → walk_keys attempts booking_id key (ids ++ rest) ≡ walk_keys attempts booking_id key rest
unfolding walk_keys
walk_keys-append_none attempts booking_id key [] rest e = refl
walk_keys-append_none attempts booking_id key (id ∷ ids) rest e =
    ground (arith, walk_keys-append_none attempts booking_id key ids rest)

pub same_as-normalised : (amount : Amount) → same_as (normalised amount) amount ≡ true
unfolding same_as normalised
same_as-normalised amount = elim (Bool-cases (is_empty amount.currency)) [
  | inl t ↦ simp (t, eq_ℤ_refl, text_eq_refl, is_empty)
  | inr t ↦ simp (t, eq_ℤ_refl, text_eq_refl)
]

-- What the repository holds for a command whose answer is final.
pub record IsAnswered (repository : Repository) (command : PayCommand) (answer : Attempt)
    : Type 0 where
  pub named : by_key repository command.booking_id command.idempotency_key ≡ some answer
  pub same : same_as answer.amount command.amount ≡ true
  pub final : is_settled answer.status ≡ true
  pub known : lookup command.booking_id repository.bookings ≡ some tt

-- The guards that Pay and begin share.
pub record IsPayable (command : PayCommand) : Type 0 where
  pub booked : is_empty command.booking_id ≡ false
  pub charged : validate_amount command.amount ≡ none
  pub key : validate_idempotency_key command.idempotency_key ≡ none

pub begin-replays :
    (repository : Repository) (command : PayCommand) (answer : Attempt) (id : Text) (now : Time)
    → IsPayable command
    → IsAnswered repository command answer
    → is_empty id ≡ false
    → begin repository (begin_request id command now) ≡ (repository, answer, true, none)
unfolding begin begin_request
begin-replays repository command answer id now p a n =
    simp (n, p.booked, p.key, p.charged, a.known, a.named, a.same)

pub pay-replays :
    (payments : Payments) (id : Text) (now later : Time) (command : PayCommand) (answer : Attempt)
    → IsPayable command
    → IsAnswered payments.repository command answer
    → is_empty id ≡ false
    → pay payments (minted id) now later command ≡ (payments, answer, (replay_of answer).1)
unfolding pay replay_of
pay-replays payments id now later command answer p a n =
    simp (p.booked, p.key, p.charged, begin-replays payments.repository command answer id now p a n)
