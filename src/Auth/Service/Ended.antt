-- ===== src/Auth/Service/Ended.antt =====
-- service.go: what a LogOut leaves behind.
use ottodot_trial_booking_se.Prelude.{
  All, List, subst, sym, true, ◌<◌, Option-cases, Text, Time, ap, arith, false, inl, inr, is_empty,
  is_zero, lookup, none, refl, some, ◌∙◌, ◌≡◌,
}
use ottodot_trial_booking_se.Auth.Store.Cases.{lookup-map}
use ottodot_trial_booking_se.Auth.Service.{
  refresh, mint_next, RefreshReads, rotate_request, log_out, end_family, LogOutRequest,
  validate_log_out,
}
use ottodot_trial_booking_se.Auth.Service.Once.{refresh-renews, renew-err, meanwhile}
use ottodot_trial_booking_se.Auth.Session.{Keys, Settings, Sessions}
use ottodot_trial_booking_se.Auth.Store.{
  RefreshStore, RefreshRecord, rotate, validate_rotate, validate_revoke, revoke_family,
  revoke_family_locked, revoke_row, get_record, RevokeFamilyRequest,
}
use ottodot_trial_booking_se.Auth.Store.Reuse.{
  IsSpent, IsEnded, run-IsSpent, reuse_ends, revoked_row, revoke-IsEnded,
}
use ottodot_trial_booking_se.Auth.Store.Schedule.{Call, run}
use ottodot_trial_booking_se.Auth.Denylist.{
  deny, is_denied, denied_until, Respects, Call as DenylistCall, run as run_denylist,
}
use ottodot_trial_booking_se.Auth.Errors.{err_token_reused}

-- A stored family that is ended: its token is spent, and none is live.
abbrev Ended : Text → Text → RefreshStore → Type 0
Ended hash family_id store = IsSpent hash family_id store × IsEnded family_id store

revoke_family-Ended :
    (store : RefreshStore) (request : RevokeFamilyRequest) (hash : Text) (held : RefreshRecord)
    → lookup hash store ≡ some held
    → held.family_id ≡ request.family_id
    → (revoke_family store request).2 ≡ none
    → Ended hash request.family_id (revoke_family store request).0
unfolding revoke_family
revoke_family-Ended store request hash held found own =
    elim (Option-cases (validate_revoke request)) [
      | inr (err, v) ↦ rw (v, revoke_family) (λ e. absurd cc)
      | inl v ↦
          rw (v, revoke_family)
            (λ e.
              let dated = revoke_dated request v in
              let kept = revoke_row-family request.family_id request.now held ∙ own in
              (
                (
                  revoke_row request.family_id request.now held,
                  unfold revoke_family_locked in
                      lookup-map (revoke_row request.family_id request.now) hash held store found,
                  revoked_row request.family_id request.now held dated kept,
                  kept,
                ),
                revoke-IsEnded store request.family_id request.now dated,
              ))
    ]
  where
    revoke_dated :
        (request : RevokeFamilyRequest)
        → validate_revoke request ≡ none
        → is_zero request.now ≡ false
    revoke_dated request v = unfold validate_revoke in ground arith

    revoke_row-family :
        (family_id : Text) (now : Time) (held : RefreshRecord)
        → (revoke_row family_id now held).family_id ≡ held.family_id
    revoke_row-family family_id now held = unfold revoke_row in ground arith

module _ (keys : Keys) (sessions : Sessions) (refresh_token : Text) (now : Time)
    (held : RefreshRecord) (named : is_empty refresh_token ≡ false)
    (hashed : is_empty (keys.hash_token refresh_token) ≡ false)
    (found : lookup (keys.hash_token refresh_token) sessions.store ≡ some held) where
  end_family-Ended :
      (end_family keys sessions refresh_token now).1 ≡ none
      → Ended
          (keys.hash_token refresh_token)
          held.family_id
          (end_family keys sessions refresh_token now).0.store
        × ((end_family keys sessions refresh_token now).0.denylist ≡ sessions.denylist)
  unfolding end_family
  end_family-Ended =
      let read : get_record sessions.store (keys.hash_token refresh_token) ≡ (held, none) =
        unfold get_record in rw (hashed, found, get_record) refl in
      let ok : (get_record sessions.store (keys.hash_token refresh_token)).1 ≡ none =
        ap (λ r. r.1) read in
      let here : (get_record sessions.store (keys.hash_token refresh_token)).0 ≡ held =
        ap (λ r. r.0) read in
      rw (named, ok, here, end_family)
        (λ e. (
          revoke_family-Ended sessions.store (record { family_id = held.family_id; now = now })
              (keys.hash_token refresh_token) held found refl e,
          refl,
        ))

-- The three steps of a LogOut that answers without an error.
log_out-steps :
    (keys : Keys) (sessions : Sessions) (request : LogOutRequest) (now : Time)
    → (log_out keys sessions request now).1 ≡ none
    → let denied = deny sessions.denylist request.token_id request.token_expiry in
      let withdrawn = record sessions { denylist = denied.0 } in
      (denied.1 ≡ none)
      × ((end_family keys withdrawn request.refresh_token now).1 ≡ none)
      × (log_out keys sessions request now ≡ end_family keys withdrawn request.refresh_token now)
unfolding log_out
log_out-steps keys sessions request now = elim (Option-cases (validate_log_out request)) [
  | inr (err, v) ↦ rw (v, log_out) (λ e. absurd cc)
  | inl v ↦
      rw (v, log_out)
        (elim (Option-cases (deny sessions.denylist request.token_id request.token_expiry).1) [
          | inr (err, d) ↦ rw (d, log_out) (λ e. absurd cc)
          | inl d ↦ rw (d, log_out) (λ e. (refl, e, refl))
        ])
]

-- Where a LogOut with the refresh token of a stored row answers without an error, then whatever
-- others do with the store and the denylist in between: no token of the family is live right after
-- it; a Refresh with the token that mints its own and makes a request that passes its check answers
-- that the token was reused; and the access token is denied at every instant before its expiry (but
-- the zero instant), as long as it is asked about only before its expiry and withdrawn again until no
-- sooner. The hash of the token is not empty.
pub log_out_ends :
    (keys : Keys) (settings : Settings) (sessions : Sessions) (request : LogOutRequest)
    (now later : Time) (held : RefreshRecord) (again : RefreshReads) (next_id next_token : Text)
    (calls : List Call) (asked : List DenylistCall)
    → is_empty request.refresh_token ≡ false
    → is_empty (keys.hash_token request.refresh_token) ≡ false
    → lookup (keys.hash_token request.refresh_token) sessions.store ≡ some held
    → (log_out keys sessions request now).1 ≡ none
    → mint_next again.id_mint again.token_mint ≡ some (next_id, next_token)
    → validate_rotate
        (rotate_request keys settings request.refresh_token next_id next_token again.now)
      ≡ none
    → All (Respects request.token_id request.token_expiry) asked
    → is_zero later ≡ false
    → later < request.token_expiry
    → let after = (log_out keys sessions request now).0 in
      IsEnded held.family_id after.store
      × ((refresh keys settings (meanwhile after calls) again request.refresh_token).2
          ≡ some err_token_reused)
      × ((is_denied (run_denylist after.denylist asked) request.token_id later).1 ≡ true)
unfolding rotate_request
log_out_ends keys settings sessions request now later held again next_id next_token calls asked
      named hashed found ok m k r dated soon =
    let after = (log_out keys sessions request now).0 in
    let (denied, ended_ok, same) = log_out-steps keys sessions request now ok in
    let withdrawn = record sessions {
      denylist = (deny sessions.denylist request.token_id request.token_expiry).0;
    } in
    let (ended, kept) =
      end_family-Ended keys withdrawn request.refresh_token now held named hashed found ended_ok in
    let hash = keys.hash_token request.refresh_token in
    let stored : after.store ≡ (end_family keys withdrawn request.refresh_token now).0.store =
      ap (λ x. x.0.store) same in
    let listed : after.denylist ≡ (deny sessions.denylist request.token_id request.token_expiry).0 =
      ap (λ x. x.0.denylist) same ∙ kept in
    let spent : IsSpent hash held.family_id (run after.store calls) =
      run-IsSpent after.store calls hash held.family_id
        (subst (IsSpent hash held.family_id) (sym stored) ended.0) in
    let asking = rotate_request keys settings request.refresh_token next_id next_token again.now in
    let told = (reuse_ends (run after.store calls) asking held.family_id spent k).0 in
    let ran =
      refresh-renews keys settings (meanwhile after calls) again request.refresh_token next_id
        next_token named m in
    (
      subst (IsEnded held.family_id) (sym stored) ended.1,
      ap (λ x. x.2) ran
          ∙ renew-err keys settings (meanwhile after calls) again next_token
              (rotate (run after.store calls) asking) _ told,
      subst (λ list. (is_denied (run_denylist list asked) request.token_id later).1 ≡ true)
          (sym listed)
          (denied_until sessions.denylist asked request.token_id request.token_expiry later denied r
            dated soon).0,
    )
