-- ===== src/Checkout/Price.antt =====
-- backend/internal/checkout/price.go: what a trial class costs.
use ottodot_trial_booking_se.Prelude.{
  subst, sym, Option-cases, Text-discrete, arith, eq_ℤ→eq, inl, inr, refl, text_cases, Bool, Option,
  eq_ℤ, false, if◌then◌else◌, none, not, pos, some, text_eq, ℤ, ◌&&◌, ◌||◌, ◌↔◌, ◌≡◌,
}
use ottodot_trial_booking_se.Payment.Model.{
  Amount, Error, default_currency, normalised, validate_amount, err_invalid_amount,
  err_invalid_currency,
}

abbrev pub trial_price_cents : ℤ
trial_price_cents = pos 4500

unfoldable pub trial_price : Amount
trial_price = record { cents = trial_price_cents; currency = default_currency }

abbrev pub demonstration_decline_cents : ℤ
demonstration_decline_cents = pos 4501

abbrev pub demonstration_unreachable_cents : ℤ
demonstration_unreachable_cents = pos 4502

-- AcceptAmount, from the check of the currency on.
unfoldable pub accept_normalised : Amount → Bool → Option Error
accept_normalised amount development =
    if not (text_eq amount.currency default_currency)
    then some err_invalid_currency
    else if eq_ℤ amount.cents trial_price_cents
    then none
    else if development
        && (eq_ℤ amount.cents demonstration_decline_cents
            || eq_ℤ amount.cents demonstration_unreachable_cents)
    then none
    else some err_invalid_amount

unfoldable pub accept_amount : Amount → Bool → Option Error
accept_amount requested development = elim (validate_amount (normalised requested)) [
  | some err ↦ some err
  | none ↦ accept_normalised (normalised requested) development
]

same_amount : (a b : Amount) → a.cents ≡ b.cents → a.currency ≡ b.currency → a ≡ b
same_amount a b p q = λ i. record { cents = p i; currency = q i }

price_only : (amount : Amount) → accept_normalised amount false ≡ none → amount ≡ trial_price
unfolding accept_normalised trial_price
price_only amount e = elim (text_cases amount.currency default_currency) [
  | inr (t, n) ↦ absurd (ground arith)
  | inl (t, same) ↦
      same_amount amount trial_price (eq_ℤ→eq amount.cents trial_price_cents (ground arith)) same
]

charged :
    (requested : Amount) → accept_amount requested false ≡ none → normalised requested ≡ trial_price
unfolding accept_amount
charged requested = elim (Option-cases (validate_amount (normalised requested))) [
  | inr (err, v) ↦ rw (v, accept_amount) (λ e. absurd cc)
  | inl v ↦ rw (v, accept_amount) (price_only (normalised requested))
]

accepted_back :
    (requested : Amount) → normalised requested ≡ trial_price → accept_amount requested false ≡ none
unfolding accept_amount
accepted_back requested e =
    let v : validate_amount (normalised requested) ≡ none =
      subst (λ a. validate_amount a ≡ none) (sym e)
        (unfold trial_price validate_amount normalised in refl) in
    rw (v, accept_amount)
      (subst (λ a. accept_normalised a false ≡ none) (sym e)
        (unfold trial_price accept_normalised Text-discrete in refl))

-- Outside of development an amount is accepted exactly when it is the price.
pub accept_amount-price :
    (requested : Amount)
    → (accept_amount requested false ≡ none) ↔ (normalised requested ≡ trial_price)
unfolding accept_amount accept_normalised trial_price
accept_amount-price requested = (charged requested, accepted_back requested)
