-- ===== src/Auth/Session.antt =====
-- backend/internal/auth/service.go: what a session is made of. The signing key with the libraries of
-- the token, the hash of a refresh token, the check of a password and the normal form of an address
-- are parameters.
use ottodot_trial_booking_se.Prelude.{
  Bool, Duration, Option, Text, Time, [], add_time, if◌then◌else◌, leb_ℤ, minutes, none, pos, some,
}
use ottodot_trial_booking_se.Identifier.{Minted, mint_failed, minted}
use ottodot_trial_booking_se.Auth.Store.{
  IssueRequest, RefreshRecord, RefreshStore, issue, no_record,
}
use ottodot_trial_booking_se.Auth.Jwt.{Codec, sign}
use ottodot_trial_booking_se.Auth.Errors.{Error, foreign}
use ottodot_trial_booking_se.Auth.Directory.{Directory, Parent}
use ottodot_trial_booking_se.Auth.Denylist.{Denylist}
use ottodot_trial_booking_se.Auth.Claims.{
  claims_expiry, no_claims, type_access, unix_seconds, Claims,
}

pub record Keys : Type 0 where
  pub codec : Codec
  pub secret : Text
  pub hash_token : Text → Text
  pub verify_password : Text → Text → Bool
  pub normalise : Text → Text

pub record Settings : Type 0 where
  pub access_ttl : Duration
  pub refresh_ttl : Duration

-- 15 minutes and 720 hours
unfoldable pub default_settings : Settings
default_settings = record { access_ttl = minutes 15; refresh_ttl = minutes 43200 }

abbrev positive_or : Duration → Duration → Duration
positive_or given default = if leb_ℤ given (pos 0) then default else given

unfoldable pub with_defaults : Settings → Settings
unfolding default_settings
with_defaults settings = record {
  access_ttl = positive_or settings.access_ttl default_settings.access_ttl;
  refresh_ttl = positive_or settings.refresh_ttl default_settings.refresh_ttl;
}

pub record Sessions : Type 0 where
  pub store : RefreshStore
  pub directory : Directory
  pub denylist : Denylist

pub record Issued : Type 0 where
  pub access_token : Text
  pub access_expires_at : Time
  pub refresh_token : Text
  pub refresh_expires_at : Time
  pub claims : Claims

abbrev pub no_session : Issued
no_session = record {
  access_token = [];
  access_expires_at = 0;
  refresh_token = [];
  refresh_expires_at = 0;
  claims = no_claims;
}

unfoldable pub session_claims : Settings → Parent → Text → Time → Claims
session_claims settings parent access_id now = record {
  subject = parent.id;
  role = parent.role;
  token_type = type_access;
  token_id = access_id;
  issued_at = unix_seconds now;
  expires_at = unix_seconds (add_time now settings.access_ttl);
}

-- completeSession
unfoldable pub complete_session :
    Keys → Settings → Parent → Text → RefreshRecord → Minted → Time → Issued × Option Error
complete_session keys settings parent token held (mint_failed why) now =
    (no_session, some (foreign why))
complete_session keys settings parent token held (minted access_id) now =
    let signed = session_claims settings parent access_id now in
    let (access_token, err) = sign keys.codec keys.secret signed in
    elim err [
      | some sign_err ↦ (no_session, some sign_err)
      | none ↦ (
        record {
          access_token = access_token;
          access_expires_at = claims_expiry signed;
          refresh_token = token;
          refresh_expires_at = held.expires_at;
          claims = signed;
        },
        none,
      )
    ]

unfoldable pub issue_request : Keys → Settings → Text → Text → Text → Text → Time → IssueRequest
issue_request keys settings token_id parent_id family_id token now = record {
  token_id = token_id;
  parent_id = parent_id;
  family_id = family_id;
  token_hash = keys.hash_token token;
  expires_at = add_time now settings.refresh_ttl;
  now = now;
}

-- issueRefresh: the token, and the row that was written for it.
unfoldable pub issue_refresh :
    Keys
    → Settings
    → RefreshStore
    → Text
    → Text
    → Time
    → Minted
    → Minted
    → RefreshStore × Text × RefreshRecord × Option Error
issue_refresh keys settings store parent_id family_id now (mint_failed why) token_mint =
    (store, [], no_record, some (foreign why))
issue_refresh keys settings store parent_id family_id now (minted token_id) (mint_failed why) =
    (store, [], no_record, some (foreign why))
issue_refresh keys settings store parent_id family_id now (minted token_id) (minted token) =
    let (written_store, written, err) =
      issue store (issue_request keys settings token_id parent_id family_id token now) in
    (written_store, token, written, err)
