-- ===== src/Payment/Service/Refundable.antt =====
-- refund.go: the charge that a refund of a booking picks, and that the refund is answered.
use ottodot_trial_booking_se.Prelude.{
  inl, All, Bool-cases, List, Option-cases, Text, Time, [], arith, false, if◌then◌else◌, inr,
  is_empty, lookup, lookup-All, lookup_or, map, none, refl, select, some, some-injective, subst,
  sym, text_eq, true, ◌&&◌, ◌∙◌, ◌∷◌, ◌≡◌,
}
use ottodot_trial_booking_se.Payment.Service.Twice.{pay-Final}
use ottodot_trial_booking_se.Payment.Service.Paid.{pay-Succeeds}
use ottodot_trial_booking_se.Payment.Service.{
  PayCommand, Payments, moved_money, pay, refund_booking, refund_key_for, refund_request,
  settled_attempt,
}
use ottodot_trial_booking_se.Payment.Provider.{
  MockProvider, RefundRequest, is_provider_error, refund,
}
use ottodot_trial_booking_se.Payment.Model.{
  Attempt, is_settled, no_attempt, succeeded, validate_amount,
}
use ottodot_trial_booking_se.Payment.Memory.Laws.{IsKept}
use ottodot_trial_booking_se.Payment.Memory.{attempts_for, by_key, has_key, walk_keys}
use ottodot_trial_booking_se.Identifier.{minted}
use ottodot_trial_booking_se.Payment.Service.Funded.{Funded, IsFunded, pay-IsFunded}

-- What the refund needs of the attempt that it picks.
abbrev pub IsRefundable : Text → Attempt → Type 0
IsRefundable booking_id paid =
    (moved_money paid ≡ true)
    × (text_eq paid.booking_id booking_id ≡ true)
    × (validate_amount paid.amount ≡ none)

Funded-amount :
    (attempts : List (Text × Attempt)) (id : Text)
    → All Funded attempts
    → moved_money (lookup_or no_attempt id attempts) ≡ true
    → validate_amount (lookup_or no_attempt id attempts).amount ≡ none
Funded-amount attempts id v m = elim (Option-cases (lookup id attempts)) [
  | inl e ↦ absurd (ground arith)
  | inr (a, e) ↦ rw (e, lookup_or) ((lookup-All Funded id a attempts v e).0)
]

abbrev of_booking : Text → List Attempt → List Attempt
of_booking booking_id = select (λ stored. text_eq stored.booking_id booking_id)

-- The first attempt of a list is picked, or else the pick is the rest's.
pick_first :
    (booking_id : Text) (stored : Attempt) (rest : List Attempt)
    → text_eq stored.booking_id booking_id ≡ true
    → moved_money stored ≡ true
    → settled_attempt (of_booking booking_id (stored ∷ rest)) ≡ some stored
unfolding settled_attempt
pick_first booking_id stored rest t m = rw t (rw (m, settled_attempt) refl)

pick_rest :
    (booking_id : Text) (stored : Attempt) (rest : List Attempt)
    → (text_eq stored.booking_id booking_id && moved_money stored) ≡ false
    → settled_attempt (of_booking booking_id (stored ∷ rest))
      ≡ settled_attempt (of_booking booking_id rest)
unfolding settled_attempt
pick_rest booking_id stored rest n = elim (Bool-cases (text_eq stored.booking_id booking_id)) [
  | inr t ↦ rw t refl
  | inl t ↦ let m : moved_money stored ≡ false = rw t at n in rw t (rw (m, settled_attempt) refl)
]

walk_skips :
    (attempts : List (Text × Attempt)) (booking_id key id : Text) (ids : List Text) (a : Attempt)
    → walk_keys attempts booking_id key (id ∷ ids) ≡ some a
    → moved_money a ≡ true
    → (text_eq (lookup_or no_attempt id attempts).booking_id booking_id
        && moved_money (lookup_or no_attempt id attempts))
      ≡ false
    → walk_keys attempts booking_id key ids ≡ some a
unfolding walk_keys
walk_skips attempts booking_id key id ids a e m t = skip (lookup_or no_attempt id attempts) e t
  where
    skip :
        (stored : Attempt)
        → (if has_key booking_id key stored
            then some stored
            else walk_keys attempts booking_id key ids)
          ≡ some a
        → (text_eq stored.booking_id booking_id && moved_money stored) ≡ false
        → walk_keys attempts booking_id key ids ≡ some a
    skip stored e t = elim (Bool-cases (has_key booking_id key stored)) [
      | inl h ↦
          let here : some stored ≡ some a = rw h at e in
          let same : stored ≡ a = some-injective stored a here in
          let moved : moved_money stored ≡ true = subst (λ b. moved_money b ≡ true) (sym same) m in
          absurd (ground arith)
      | inr h ↦ rw h at e
    ]

-- An attempt that moved money and that the walk by key finds is one that the refund can pick.
pub walk_keys-settled :
    (attempts : List (Text × Attempt)) (booking_id key : Text) (ids : List Text) (a : Attempt)
    → All Funded attempts
    → walk_keys attempts booking_id key ids ≡ some a
    → moved_money a ≡ true
    → (paid : Attempt) × (settled_attempt (
          select
            (λ stored. text_eq stored.booking_id booking_id)
            (map (λ id. lookup_or no_attempt id attempts) ids))
        ≡ some paid)
      × IsRefundable booking_id paid
unfolding walk_keys
walk_keys-settled attempts booking_id key [] a v e m = absurd cc
walk_keys-settled attempts booking_id key (id ∷ ids) a v e m =
    let stored = lookup_or no_attempt id attempts in
    let rest = map (λ i. lookup_or no_attempt i attempts) ids in
    elim (Bool-cases (text_eq stored.booking_id booking_id && moved_money stored)) [
      | inl t ↦
          let own : text_eq stored.booking_id booking_id ≡ true = ground arith in
          let moved : moved_money stored ≡ true = ground arith in
          (
            stored,
            pick_first booking_id stored rest own moved,
            (moved, own, Funded-amount attempts id v moved),
          )
      | inr t ↦
          let skipped : walk_keys attempts booking_id key ids ≡ some a =
            walk_skips attempts booking_id key id ids a e m t in
          let (paid, found, good) = walk_keys-settled attempts booking_id key ids a v skipped m in
          (paid, pick_rest booking_id stored rest t ∙ found, good)
    ]

-- An attempt that the walk finds has its reference once it has succeeded.
Funded-ref :
    (attempts : List (Text × Attempt)) (id : Text)
    → All Funded attempts
    → (lookup_or no_attempt id attempts).status ≡ succeeded
    → is_empty (lookup_or no_attempt id attempts).provider_ref ≡ false
Funded-ref attempts id v = elim (Option-cases (lookup id attempts)) [
  | inl e ↦ rw (e, lookup_or) (λ s. absurd (ground arith))
  | inr (a, e) ↦ rw (e, lookup_or) ((lookup-All Funded id a attempts v e).1)
]

walk_keys-ref :
    (attempts : List (Text × Attempt)) (booking_id key : Text) (ids : List Text) (a : Attempt)
    → All Funded attempts
    → walk_keys attempts booking_id key ids ≡ some a
    → a.status ≡ succeeded
    → is_empty a.provider_ref ≡ false
unfolding walk_keys
walk_keys-ref attempts booking_id key [] a v e s = absurd cc
walk_keys-ref attempts booking_id key (id ∷ ids) a v e s =
    pick (lookup_or no_attempt id attempts) e (Funded-ref attempts id v)
      (λ k. walk_keys-ref attempts booking_id key ids a v k s)
  where
    pick :
        (stored : Attempt)
        → (if has_key booking_id key stored
            then some stored
            else walk_keys attempts booking_id key ids)
          ≡ some a
        → (stored.status ≡ succeeded → is_empty stored.provider_ref ≡ false)
        → (walk_keys attempts booking_id key ids ≡ some a → is_empty a.provider_ref ≡ false)
        → is_empty a.provider_ref ≡ false
    pick stored e own rest = elim (Bool-cases (has_key booking_id key stored)) [
      | inl h ↦
          let here : some stored ≡ some a = rw h at e in
          let same : stored ≡ a = some-injective stored a here in
          subst (λ b. is_empty b.provider_ref ≡ false) same
            (own (subst (λ b. b.status ≡ succeeded) (sym same) s))
      | inr h ↦ rest (rw h at e)
    ]

moved_of :
    (a : Attempt) → a.status ≡ succeeded → is_empty a.provider_ref ≡ false → moved_money a ≡ true
moved_of a s r = ground arith

-- After a Pay without an error a refund of the booking has a charge to send back.
pub pay-Refundable :
    (payments : Payments) (id : Text) (now later : Time) (command : PayCommand)
    → IsKept payments.repository
    → IsFunded payments.repository
    → lookup id payments.repository.attempts ≡ none
    → is_empty id ≡ false
    → (pay payments (minted id) now later command).2 ≡ none
    → (paid : Attempt) × (settled_attempt (
          attempts_for (pay payments (minted id) now later command).0.repository command.booking_id)
        ≡ some paid)
      × IsRefundable command.booking_id paid
unfolding attempts_for by_key is_settled
pay-Refundable payments id now later command kept v fresh named ok =
    let after = pay payments (minted id) now later command in
    let done : after.1.status ≡ succeeded =
      (pay-Succeeds payments (minted id) now later command ok).0 in
    let final = (pay-Final payments id now later command kept fresh named (rw done refl)).1 in
    let answered = (final (rw done refl)).0 in
    let funded = pay-IsFunded payments (minted id) now later command v in
    let ref =
      walk_keys-ref after.0.repository.attempts command.booking_id command.idempotency_key
        after.0.repository.order after.1 funded answered.named done in
    let moved = moved_of after.1 done ref in
    walk_keys-settled after.0.repository.attempts command.booking_id command.idempotency_key
      after.0.repository.order after.1 funded answered.named moved

-- The provider does not refuse: no refusal is forced for the booking.
pub refund-answers :
    (provider : MockProvider) (request : RefundRequest)
    → is_empty request.provider_ref ≡ false
    → is_empty request.reference ≡ false
    → is_empty request.idempotency_key ≡ false
    → validate_amount request.amount ≡ none
    → is_provider_error (lookup request.reference provider.forced) ≡ false
    → (refund provider request).2 ≡ none
unfolding refund
refund-answers provider request p r k a f =
    elim (Option-cases (lookup request.idempotency_key provider.settled_refunds)) [
      | inr (already, l) ↦ simp (p, r, k, a, l)
      | inl l ↦ simp (p, r, k, a, l, f)
    ]

pub refund_booking-answers :
    (payments : Payments) (now : Time) (booking_id : Text) (paid : Attempt)
    → is_empty booking_id ≡ false
    → settled_attempt (attempts_for payments.repository booking_id) ≡ some paid
    → IsRefundable booking_id paid
    → is_provider_error (lookup booking_id payments.provider.forced) ≡ false
    → (refund_booking payments now booking_id).2 ≡ none
unfolding refund_booking
refund_booking-answers payments now booking_id paid n s good f =
    let own : paid.booking_id ≡ booking_id = ground (arith, good.1) in
    let named : is_empty paid.provider_ref ≡ false = ground (arith, good.0) in
    let keyed : is_empty (refund_key_for paid.id) ≡ false = unfold refund_key_for in refl in
    let answered : (refund payments.provider (refund_request paid)).2 ≡ none =
      refund-answers payments.provider (refund_request paid) (unfold refund_request in named)
        (unfold refund_request in (rw own n)) (unfold refund_request in keyed)
        (unfold refund_request in good.2) (unfold refund_request in (rw own f)) in
    rw (n, s, answered, refund_booking) refl
