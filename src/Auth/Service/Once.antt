-- ===== src/Auth/Service/Once.antt =====
-- refresh.go and service.go: what presenting a token after its session moved on does.
use ottodot_trial_booking_se.Prelude.{
  Bool-cases, List, Option-cases, Text, ap, false, inl, inr, is_empty, none, refl, some, subst, sym,
  ◌∙◌, ◌≡◌,
}
use ottodot_trial_booking_se.Auth.Directory.{get_account}
use ottodot_trial_booking_se.Auth.Service.{refresh, renew, mint_next, RefreshReads, rotate_request}
use ottodot_trial_booking_se.Auth.Session.{Keys, Settings, Sessions}
use ottodot_trial_booking_se.Auth.Store.{rotate, validate_rotate}
use ottodot_trial_booking_se.Auth.Store.Cases.{Answer}
use ottodot_trial_booking_se.Auth.Store.Reuse.{
  rotate-IsSpent, IsSpent, IsEnded, run-IsSpent, rotate-spends, reuse_ends,
}
use ottodot_trial_booking_se.Auth.Store.Schedule.{Call, run}
use ottodot_trial_booking_se.Auth.Errors.{Error, err_token_reused}

-- The sessions after calls of the store by others.
abbrev pub meanwhile : Sessions → List Call → Sessions
meanwhile sessions calls = record sessions { store = run sessions.store calls }

renew-store :
    (keys : Keys) (settings : Settings) (sessions : Sessions) (reads : RefreshReads)
    (next_token : Text) (rotated : Answer)
    → (renew keys settings sessions reads next_token rotated).0.store ≡ rotated.0
renew-store keys settings sessions reads next_token (store, successor, some err) = refl
renew-store keys settings sessions reads next_token (store, successor, none) =
    elim (Option-cases (get_account sessions.directory successor.parent_id).1) [
      | inl e ↦ rw (e, renew) refl
      | inr (err, e) ↦ rw (e, renew) refl
    ]

renew-none :
    (keys : Keys) (settings : Settings) (sessions : Sessions) (reads : RefreshReads)
    (next_token : Text) (rotated : Answer)
    → (renew keys settings sessions reads next_token rotated).2 ≡ none
    → rotated.2 ≡ none
renew-none keys settings sessions reads next_token (store, successor, some err) e = absurd cc
renew-none keys settings sessions reads next_token (store, successor, none) e = refl

pub renew-err :
    (keys : Keys) (settings : Settings) (sessions : Sessions) (reads : RefreshReads)
    (next_token : Text) (rotated : Answer) (err : Error)
    → rotated.2 ≡ some err
    → (renew keys settings sessions reads next_token rotated).2 ≡ some err
renew-err keys settings sessions reads next_token (store, successor, some why) err e = e
renew-err keys settings sessions reads next_token (store, successor, none) err e = absurd cc

-- What a Refresh does once it has minted its tokens.
pub refresh-renews :
    (keys : Keys) (settings : Settings) (sessions : Sessions) (reads : RefreshReads)
    (presented next_id next_token : Text)
    → is_empty presented ≡ false
    → mint_next reads.id_mint reads.token_mint ≡ some (next_id, next_token)
    → refresh keys settings sessions reads presented
      ≡ renew keys settings sessions reads next_token (
          rotate sessions.store
            (rotate_request keys settings presented next_id next_token reads.now))
unfolding refresh
refresh-renews keys settings sessions reads presented next_id next_token n m =
    rw (n, m, refresh) refl

refresh-minted :
    (keys : Keys) (settings : Settings) (sessions : Sessions) (reads : RefreshReads)
    (presented : Text)
    → (refresh keys settings sessions reads presented).2 ≡ none
    → (is_empty presented ≡ false)
      × (next_id : Text) × (next_token : Text) × (mint_next reads.id_mint reads.token_mint
          ≡ some (next_id, next_token))
unfolding refresh
refresh-minted keys settings sessions reads presented = elim (Bool-cases (is_empty presented)) [
  | inl t ↦ rw (t, refresh) (λ e. absurd cc)
  | inr t ↦
      rw (t, refresh)
        (elim (Option-cases (mint_next reads.id_mint reads.token_mint)) [
          | inl m ↦ rw (m, refresh) (λ e. absurd cc)
          | inr (pair, m) ↦ rw (m, refresh) (λ e. (refl, pair.0, pair.1, refl))
        ])
]

-- Where a Refresh succeeded, then whatever others do with the store in between, a later one that
-- presents the same token, mints its own two and makes a request that passes its check answers that
-- the token was reused; afterwards the family of that token has no live token.
pub refresh_once :
    (keys : Keys) (settings : Settings) (sessions : Sessions) (first again : RefreshReads)
    (presented next_id next_token : Text) (calls : List Call)
    → (refresh keys settings sessions first presented).2 ≡ none
    → mint_next again.id_mint again.token_mint ≡ some (next_id, next_token)
    → validate_rotate (rotate_request keys settings presented next_id next_token again.now) ≡ none
    → let later =
        refresh keys settings
          (meanwhile (refresh keys settings sessions first presented).0 calls)
          again
          presented in
      (later.2 ≡ some err_token_reused)
      × (family_id : Text) × IsSpent (keys.hash_token presented) family_id later.0.store
      × IsEnded family_id later.0.store
unfolding rotate_request
refresh_once keys settings sessions first again presented next_id next_token calls ok m k =
    let (named, one_id, one_token, one) =
      refresh-minted keys settings sessions first presented ok in
    let opening = rotate_request keys settings presented one_id one_token first.now in
    let asking = rotate_request keys settings presented next_id next_token again.now in
    let ran = refresh-renews keys settings sessions first presented one_id one_token named one in
    let stored : (refresh keys settings sessions first presented).0.store
        ≡ (rotate sessions.store opening).0 =
      ap (λ r. r.0.store) ran ∙ renew-store keys settings sessions first one_token _ in
    let rotated : (rotate sessions.store opening).2 ≡ none =
      renew-none keys settings sessions first one_token _ (sym (ap (λ r. r.2) ran) ∙ ok) in
    let family_id = (rotate sessions.store opening).1.family_id in
    let after = meanwhile (refresh keys settings sessions first presented).0 calls in
    let spent : IsSpent (keys.hash_token presented) family_id after.store =
      run-IsSpent _ calls (keys.hash_token presented) family_id (
        subst (IsSpent (keys.hash_token presented) family_id) (sym stored)
          (rotate-spends sessions.store opening rotated)) in
    let (told, ended) = reuse_ends after.store asking family_id spent k in
    let again_ran = refresh-renews keys settings after again presented next_id next_token named m in
    let final : (refresh keys settings after again presented).0.store
        ≡ (rotate after.store asking).0 =
      ap (λ r. r.0.store) again_ran ∙ renew-store keys settings after again next_token _ in
    (
      ap (λ r. r.2) again_ran
          ∙ renew-err keys settings after again next_token (rotate after.store asking) _ told,
      family_id,
      subst (IsSpent (keys.hash_token presented) family_id) (sym final)
          (rotate-IsSpent after.store asking (keys.hash_token presented) family_id spent),
      subst (IsEnded family_id) (sym final) ended,
    )
