-- ===== src/Auth/Service.antt =====
-- backend/internal/auth: LogIn and LogOut of service.go, and refresh.go. What a call mints and reads
-- from the clock are its arguments. An error that only wraps another is the error that it wraps.
use ottodot_trial_booking_se.Prelude.{
  Bool, Option, Text, Time, [], add_time, false, if◌then◌else◌, is_empty, is_zero, none, not, some,
  true, ◌||◌,
}
use ottodot_trial_booking_se.Identifier.{Minted, mint_failed, minted}
mod Examples
pub mod Once
pub mod Ended
use ottodot_trial_booking_se.Auth.Session.{
  Keys, Settings, Sessions, Issued, no_session, complete_session, issue_refresh,
}
use ottodot_trial_booking_se.Auth.Errors.{
  Error, err_invalid_request, err_no_such_parent, err_token_not_found, foreign,
}
use ottodot_trial_booking_se.Auth.Store.{
  RefreshStore, RefreshRecord, rotate, revoke_family, get_record, RotateRequest,
}
use ottodot_trial_booking_se.Auth.Denylist.{deny}
use ottodot_trial_booking_se.Auth.Directory.{Parent, credential_by_email, get_account}

-- What a call mints and reads.
pub record LogInReads : Type 0 where
  pub now : Time
  pub family_mint : Minted
  pub id_mint : Minted
  pub token_mint : Minted
  pub access_mint : Minted

abbrev finish :
    Keys
    → Settings
    → Sessions
    → Parent
    → LogInReads
    → RefreshStore × Text × RefreshRecord × Option Error
    → Sessions × Issued × Option Error
finish keys settings sessions parent reads (store, token, held, some err) =
    (record sessions { store = store }, no_session, some err)
finish keys settings sessions parent reads (store, token, held, none) =
    let (issued, err) =
      complete_session keys settings parent token held reads.access_mint reads.now in
    (record sessions { store = store }, issued, err)

-- LogIn, once the password has matched.
unfoldable pub start_family :
    Keys → Settings → Sessions → Parent → LogInReads → Sessions × Issued × Option Error
start_family keys settings sessions parent reads = elim reads.family_mint [
  | mint_failed why ↦ (sessions, no_session, some (foreign why))
  | minted family_id ↦ finish keys settings sessions parent reads (
      issue_refresh keys settings sessions.store parent.id family_id reads.now reads.id_mint
        reads.token_mint)
]

unfoldable pub log_in :
    Keys → Settings → Sessions → LogInReads → Text → Text → Sessions × Issued × Option Error
log_in keys settings sessions reads email password =
    if is_empty (keys.normalise email) || is_empty password
    then (sessions, no_session, some err_invalid_request)
    else let (credential, err) = credential_by_email keys.normalise sessions.directory email in
      elim err [
        | some directory_err ↦ (sessions, no_session, some directory_err)
        | none ↦
            if not (keys.verify_password credential.password_hash password)
            then (sessions, no_session, some err_no_such_parent)
            else start_family keys settings sessions credential.parent reads
      ]

pub record RefreshReads : Type 0 where
  pub now : Time
  pub id_mint : Minted
  pub token_mint : Minted
  pub access_mint : Minted

unfoldable pub rotate_request : Keys → Settings → Text → Text → Text → Time → RotateRequest
rotate_request keys settings presented next_id next_token now = record {
  presented_hash = keys.hash_token presented;
  next_token_id = next_id;
  next_token_hash = keys.hash_token next_token;
  next_expires_at = add_time now settings.refresh_ttl;
  now = now;
}

-- Refresh, once the tokens are rotated.
abbrev pub renew :
    Keys
    → Settings
    → Sessions
    → RefreshReads
    → Text
    → RefreshStore × RefreshRecord × Option Error
    → Sessions × Issued × Option Error
renew keys settings sessions reads next_token (store, successor, some err) =
    (record sessions { store = store }, no_session, some err)
renew keys settings sessions reads next_token (store, successor, none) =
    let (account, err) = get_account sessions.directory successor.parent_id in
    elim err [
      | some account_err ↦ (record sessions { store = store }, no_session, some account_err)
      | none ↦
          let (issued, session_err) =
            complete_session keys settings account.parent next_token successor reads.access_mint
              reads.now in
          (record sessions { store = store }, issued, session_err)
    ]

abbrev pub mint_next : Minted → Minted → Option (Text × Text)
mint_next (minted next_id) (minted next_token) = some (next_id, next_token)
mint_next _ _ = none

abbrev mint_error : Minted → Minted → Text
mint_error (mint_failed why) token_mint = why
mint_error (minted next_id) (mint_failed why) = why
mint_error (minted next_id) (minted next_token) = []

unfoldable pub refresh :
    Keys → Settings → Sessions → RefreshReads → Text → Sessions × Issued × Option Error
refresh keys settings sessions reads presented =
    if is_empty presented
    then (sessions, no_session, some err_invalid_request)
    else elim (mint_next reads.id_mint reads.token_mint) [
      | none ↦ (sessions, no_session, some (foreign (mint_error reads.id_mint reads.token_mint)))
      | some (next_id, next_token) ↦ renew keys settings sessions reads next_token (
          rotate sessions.store
            (rotate_request keys settings presented next_id next_token reads.now))
    ]

pub record LogOutRequest : Type 0 where
  pub token_id : Text
  pub token_expiry : Time
  pub refresh_token : Text

unfoldable pub validate_log_out : LogOutRequest → Option Error
validate_log_out request =
    if is_empty request.token_id || is_zero request.token_expiry
    then some err_invalid_request
    else none

abbrev pub is_not_found : Error → Bool
is_not_found err_token_not_found = true
is_not_found _ = false

-- LogOut, once the access token is withdrawn: the refresh token's family ends.
unfoldable pub end_family : Keys → Sessions → Text → Time → Sessions × Option Error
end_family keys sessions refresh_token now =
    if is_empty refresh_token
    then (sessions, none)
    else let (held, err) = get_record sessions.store (keys.hash_token refresh_token) in
      elim err [
        | some record_err ↦
            if is_not_found record_err then (sessions, none) else (sessions, some record_err)
        | none ↦
            let (store, count, revoke_err) =
              revoke_family sessions.store (record { family_id = held.family_id; now = now }) in
            (record sessions { store = store }, revoke_err)
      ]

unfoldable pub log_out : Keys → Sessions → LogOutRequest → Time → Sessions × Option Error
log_out keys sessions request now = elim (validate_log_out request) [
  | some err ↦ (sessions, some err)
  | none ↦
      let (denylist, err) = deny sessions.denylist request.token_id request.token_expiry in
      elim err [
        | some deny_err ↦ (record sessions { denylist = denylist }, some deny_err)
        | none ↦ end_family keys (record sessions { denylist = denylist }) request.refresh_token now
      ]
]
