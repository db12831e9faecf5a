-- ===== src/Worker/Refunds.antt =====
-- reconcile_refund.go: the refund job of one booking, run any number of times.
use ottodot_trial_booking_se.Payment.Service.Refunds.{refund_booking-outcome, refund_twice}
use ottodot_trial_booking_se.Worker.Handlers.{
  System, close_refunded, handle_refund, refund_reason, send_back,
}
use ottodot_trial_booking_se.Prelude.{
  ap, arith, none, subst, suc, sym, ◌∙◌, ◌≤◌, Bool-cases, List, Option, Option-cases, Text, Time,
  [], inl, inr, refl, some, ◌∷◌, ◌≡◌, ◌⊎◌,
}
use ottodot_trial_booking_se.Payment.Service.{Payments, refund_booking}
use ottodot_trial_booking_se.Identifier.{Minted}
use ottodot_trial_booking_se.Booking.Status.{refund_required, status_eq}
use ottodot_trial_booking_se.Booking.Service.{cancel_booking, read_booking}
use ottodot_trial_booking_se.Booking.Model.{payment}

-- One run of the handler: the identifier of the audit line, and the two instants that are read.
abbrev pub Try : Type 0
Try = Minted × Time × Time

unfoldable pub retry : (Text → Option Text) → System → Text → List Try → System
retry decode state payload [] = state
retry decode state payload ((mint, refunded, now) ∷ tries) =
    retry decode (handle_refund decode state mint refunded now payload).0 payload tries

-- A refund of the booking was answered: a further one changes nothing.
abbrev pub IsRefunded : Payments → Text → Type 0
IsRefunded payments booking_id =
    (now : Time) → (refund_booking payments now booking_id).0 ≡ payments

closing :
    (mint : Minted) (booking_id : Text) (now : Time) (state : System)
    → (close_refunded state mint booking_id now).0.payments ≡ state.payments
unfolding close_refunded
closing mint booking_id now state =
    elim (Option-cases
      (cancel_booking state.bookings mint booking_id payment refund_reason now).2) [
        | inl e ↦ rw (e, close_refunded) refl
        | inr (err, e) ↦ rw (e, close_refunded) refl
      ]

-- The handler changes the payments through the refund alone.
handle_refund-payments :
    (decode : Text → Option Text) (state : System) (mint : Minted) (refunded now : Time)
    (payload booking_id : Text)
    → decode payload ≡ some booking_id
    → ((handle_refund decode state mint refunded now payload).0.payments ≡ state.payments)
      ⊎ ((handle_refund decode state mint refunded now payload).0.payments
          ≡ (refund_booking state.payments refunded booking_id).0)
unfolding handle_refund send_back close_refunded
handle_refund-payments decode state mint refunded now payload booking_id d =
    rw (d, handle_refund)
      (elim (Option-cases (read_booking state.bookings booking_id).1) [
        | inr (err, e) ↦ rw (e, handle_refund) (inl refl)
        | inl e ↦
            rw (e, handle_refund)
              (elim (Bool-cases
                (status_eq (read_booking state.bookings booking_id).0.status refund_required)) [
                  | inr t ↦ rw (t, handle_refund) (inl refl)
                  | inl t ↦
                      rw (t, handle_refund)
                        (elim (Option-cases (refund_booking state.payments refunded booking_id).2) [
                          | inr (err, r) ↦ rw (r, send_back) (inr refl)
                          | inl r ↦ rw (r, send_back) (inr (closing mint booking_id now _))
                        ])
                ])
      ])

refund_booking-IsRefunded :
    (payments : Payments) (now : Time) (booking_id : Text)
    → (refund_booking payments now booking_id).2 ≡ none
    → IsRefunded (refund_booking payments now booking_id).0 booking_id
refund_booking-IsRefunded payments now booking_id ok later =
    ap (λ r. r.0) (refund_twice payments now later booking_id ok)

retry-payments :
    (decode : Text → Option Text) (state : System) (payload booking_id : Text) (tries : List Try)
    → decode payload ≡ some booking_id
    → IsRefunded state.payments booking_id
    → (retry decode state payload tries).payments ≡ state.payments
unfolding retry
retry-payments decode state payload booking_id [] d h = refl
retry-payments decode state payload booking_id ((mint, refunded, now) ∷ tries) d h =
    let after = (handle_refund decode state mint refunded now payload).0 in
    let same : after.payments ≡ state.payments =
      elim (handle_refund-payments decode state mint refunded now payload booking_id d) [
        | inl e ↦ e
        | inr e ↦ e ∙ h refunded
      ] in
    retry-payments decode after payload booking_id tries d
      (subst (λ p. IsRefunded p booking_id) (sym same) h)
    ∙ same

-- However often the job of one booking is run, whatever fails between the refund and the close of
-- the booking, and at whatever instants, the provider sends money back for it at most once.
pub refund_job_pays_once :
    (decode : Text → Option Text) (state : System) (payload booking_id : Text) (tries : List Try)
    → decode payload ≡ some booking_id
    → (retry decode state payload tries).payments.provider.refunds
      ≤ suc state.payments.provider.refunds
unfolding retry
refund_job_pays_once decode state payload booking_id [] d = omega arith
refund_job_pays_once decode state payload booking_id ((mint, refunded, now) ∷ tries) d =
    let after = (handle_refund decode state mint refunded now payload).0 in
    let rest = refund_job_pays_once decode after payload booking_id tries d in
    elim (handle_refund-payments decode state mint refunded now payload booking_id d) [
      | inl e ↦ rw e at rest
      | inr e ↦ elim (refund_booking-outcome state.payments refunded booking_id) [
        | inl same ↦ rw (e ∙ same) at rest
        | inr (ok, more) ↦
            let done =
              subst (λ p. IsRefunded p booking_id) (sym e)
                (refund_booking-IsRefunded state.payments refunded booking_id ok) in
            let ends = retry-payments decode after payload booking_id tries d done in
            let counted = ap (λ p. p.provider.refunds) (ends ∙ e) ∙ more in omega arith
      ]
    ]
