-- ===== src/Payment/Service/Refunds.antt =====
-- refund.go and the refund of provider_mock.go: a refund that is asked for again.
use ottodot_trial_booking_se.Prelude.{
  refl, ◌⊎◌, Bool, Bool-cases, Option, Option-cases, Text, Time, [], codes, false, inl, inr, insert,
  is_empty, lookup, lookup-insert_self, none, some, suc, ◌++◌, ◌||◌, ◌≡◌,
}
use ottodot_trial_booking_se.Payment.Service.{
  Payments, refund_booking, refund_request, settled_attempt,
}
use ottodot_trial_booking_se.Payment.Provider.{
  is_provider_error, MockProvider, RefundRequest, RefundResult, refund,
}
use ottodot_trial_booking_se.Payment.Model.{Error, validate_amount}
use ottodot_trial_booking_se.Payment.Memory.{attempts_for}

abbrev Refunded : Type 0
Refunded = MockProvider × RefundResult × Option Error

abbrev lacks_field : RefundRequest → Bool
lacks_field request =
    is_empty request.provider_ref
    || (is_empty request.reference || is_empty request.idempotency_key)

abbrev paid_out : MockProvider → RefundRequest → MockProvider
paid_out provider request = record provider {
  settled_refunds =
      insert request.idempotency_key (codes "mock_refund_" ++ request.provider_ref)
        provider.settled_refunds;
  refunds = suc provider.refunds;
}

-- The three ways in which the provider's refund ends.
module _ (provider : MockProvider) (request : RefundRequest) (P : Refunded → Type 0)
    (refused : (err : Error) → P (provider, [], some err))
    (replays : (already : RefundResult)
      → lacks_field request ≡ false
      → validate_amount request.amount ≡ none
      → lookup request.idempotency_key provider.settled_refunds ≡ some already
      → P (provider, already, none))
    (pays : lacks_field request ≡ false
      → validate_amount request.amount ≡ none
      → P (paid_out provider request, codes "mock_refund_" ++ request.provider_ref, none)) where
  pub on_refund : P (refund provider request)
  unfolding refund
  on_refund = elim (Bool-cases (lacks_field request)) [
    | inl g ↦ rw (g, refund) (refused _)
    | inr g ↦
        rw (g, refund)
          (elim (Option-cases (validate_amount request.amount)) [
            | inr (err, a) ↦ rw (a, refund) (refused err)
            | inl a ↦
                rw (a, refund)
                  (elim (Option-cases (lookup request.idempotency_key provider.settled_refunds)) [
                    | inr (already, l) ↦ rw (l, refund) (replays already g a l)
                    | inl l ↦
                        rw (l, refund)
                          (elim (Bool-cases
                            (is_provider_error (lookup request.reference provider.forced))) [
                              | inl f ↦ rw (f, refund) (refused _)
                              | inr f ↦ rw (f, refund) (pays g a)
                            ])
                  ])
          ])
  ]

refund-replays :
    (provider : MockProvider) (request : RefundRequest) (already : RefundResult)
    → lacks_field request ≡ false
    → validate_amount request.amount ≡ none
    → lookup request.idempotency_key provider.settled_refunds ≡ some already
    → refund provider request ≡ (provider, already, none)
unfolding refund
refund-replays provider request already g a l = simp (g, a, l)

pub refund-again :
    (provider : MockProvider) (request : RefundRequest)
    → (refund provider request).2 ≡ none
    → refund (refund provider request).0 request
      ≡ ((refund provider request).0, (refund provider request).1, none)
refund-again provider request =
    on_refund provider request (λ r. r.2 ≡ none → refund r.0 request ≡ (r.0, r.1, none))
      (λ err e. cc) (λ already g a l e. refund-replays provider request already g a l)
      (λ g a e.
        refund-replays (paid_out provider request) request _ g a
          (lookup-insert_self request.idempotency_key _ provider.settled_refunds))

-- Where a refund of a booking was answered, a second one at any instant names the same charge, the
-- same reference of the refund and the same amount, and leaves the state as it is, the count of
-- the refunds that moved money included.
pub refund_twice :
    (payments : Payments) (now later : Time) (booking_id : Text)
    → (refund_booking payments now booking_id).2 ≡ none
    → refund_booking (refund_booking payments now booking_id).0 later booking_id ≡ (
      (refund_booking payments now booking_id).0,
      record ((refund_booking payments now booking_id).1) { refunded_at = later },
      none,
    )
unfolding refund_booking
refund_twice payments now later booking_id = elim (Bool-cases (is_empty booking_id)) [
  | inl t ↦ rw (t, refund_booking) (λ e. cc)
  | inr t ↦
      rw (t, refund_booking)
        (elim (Option-cases (settled_attempt (attempts_for payments.repository booking_id))) [
          | inl s ↦ rw (s, refund_booking) (λ e. cc)
          | inr (paid, s) ↦
              rw (s, refund_booking)
                (elim (Option-cases (refund payments.provider (refund_request paid)).2) [
                  | inr (err, r) ↦ rw (r, refund_booking) (λ e. cc)
                  | inl r ↦
                      rw (r, refund_booking)
                        (λ e.
                          simp (t, s, r, refund-again payments.provider (refund_request paid) r))
                ])
        ])
]

refund-count :
    (provider : MockProvider) (request : RefundRequest)
    → ((refund provider request).0 ≡ provider)
      ⊎ ((refund provider request).2 ≡ none)
        × ((refund provider request).0.refunds ≡ suc provider.refunds)
refund-count provider request =
    on_refund provider request
      (λ r. (r.0 ≡ provider) ⊎ (r.2 ≡ none) × (r.0.refunds ≡ suc provider.refunds))
      (λ err. inl refl) (λ already g a l. inl refl) (λ g a. inr (refl, refl))

-- A refund of a booking moves money at most once, and where it does it is answered.
pub refund_booking-outcome :
    (payments : Payments) (now : Time) (booking_id : Text)
    → ((refund_booking payments now booking_id).0 ≡ payments)
      ⊎ ((refund_booking payments now booking_id).2 ≡ none)
        × ((refund_booking payments now booking_id).0.provider.refunds
            ≡ suc payments.provider.refunds)
unfolding refund_booking
refund_booking-outcome payments now booking_id = elim (Bool-cases (is_empty booking_id)) [
  | inl t ↦ rw (t, refund_booking) (inl refl)
  | inr t ↦
      rw (t, refund_booking)
        (elim (Option-cases (settled_attempt (attempts_for payments.repository booking_id))) [
          | inl s ↦ rw (s, refund_booking) (inl refl)
          | inr (paid, s) ↦
              rw (s, refund_booking)
                (elim (Option-cases (refund payments.provider (refund_request paid)).2) [
                  | inr (err, r) ↦
                      rw (r, refund_booking)
                        (elim (refund-count payments.provider (refund_request paid)) [
                          | inl same ↦ inl (λ i. record payments { provider = same i })
                          | inr (ok, more) ↦ absurd cc
                        ])
                  | inl r ↦
                      rw (r, refund_booking)
                        (elim (refund-count payments.provider (refund_request paid)) [
                          | inl same ↦ inl (λ i. record payments { provider = same i })
                          | inr (ok, more) ↦ inr (refl, more)
                        ])
                ])
        ])
]
