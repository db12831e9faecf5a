-- ===== src/Auth/Service/Examples.antt =====
-- Runs of the sessions on concrete inputs, with small stand-ins for the libraries.
use ottodot_trial_booking_se.Prelude.{
  Text, Text-discrete, Time, [], arith, codes, insert, lookup, minutes, ne_of_text_eq, none, refl,
  some, true, ◌++◌, ◌+◌, ◌-ℤ◌, ◌∷◌, ◌≡◌,
}
use ottodot_trial_booking_se.Identifier.{minted}
use ottodot_trial_booking_se.Auth.Directory.{get_account}
use ottodot_trial_booking_se.Auth.Jwt.{sign, Codec, envelope}
use ottodot_trial_booking_se.Auth.Claims.{
  is_known_role, unix_seconds, validate_claims, no_claims, role_parent,
}
use ottodot_trial_booking_se.Auth.Errors.{err_token_reused}
use ottodot_trial_booking_se.Auth.Store.{
  get_record, insert_token, is_expired, is_revoked, revoke_family, rotate, spend, successor_of,
  validate_revoke, validate_rotate, RefreshRecord,
}
use ottodot_trial_booking_se.Auth.Store.Reuse.{IsSpent, IsEnded}
use ottodot_trial_booking_se.Auth.Denylist.{
  is_denied, denied_until, deny, run as run_denylist, asks,
}
use ottodot_trial_booking_se.Auth.Session.{
  complete_session, session_claims, Keys, Settings, Sessions,
}
use ottodot_trial_booking_se.Auth.Service.{
  end_family, rotate_request, validate_log_out, refresh, log_out, RefreshReads, LogOutRequest,
}
use ottodot_trial_booking_se.Auth.Service.Once.{refresh_once, meanwhile}
use ottodot_trial_booking_se.Auth.Service.Ended.{log_out_ends}

abbrev loose : Codec
loose = record {
  encode_header = λ header. some (codes "h");
  decode_header = λ text. some envelope;
  encode_claims = λ held. some (codes "c");
  decode_claims = λ text. some no_claims;
  mac = λ secret input. secret ++ input;
  encode_mac = λ digest. digest;
  decode_mac = λ text. some text;
}

abbrev keys : Keys
keys = record {
  codec = loose;
  secret = codes "k";
  hash_token = λ token. token;
  verify_password = λ stored password. true;
  normalise = λ email. email;
}

abbrev brief : Settings
brief = record { access_ttl = minutes 15; refresh_ttl = minutes 60 }

-- An instant of 1970.
abbrev noon : Time
noon = 62135600000000000000

abbrev row : RefreshRecord
row = record {
  id = codes "1";
  parent_id = codes "p";
  family_id = codes "f";
  token_hash = codes "a";
  expires_at = noon + 1000;
  revoked_at = 0;
  created_at = 1;
}

abbrev signed_in : Sessions
signed_in = record {
  store = (codes "a", row) ∷ [];
  directory = record {
    credentials_by_email = [];
    parents_by_id =
        (codes "p", record { id = codes "p"; display_name = codes "P"; role = role_parent }) ∷ [];
    children_by_id = [];
  };
  denylist = [];
}

abbrev reading : Text → RefreshReads
reading next = record {
  now = noon;
  id_mint = minted (codes "2");
  token_mint = minted next;
  access_mint = minted (codes "j");
}

refresh_once_example :
    let later =
      refresh keys brief
        (meanwhile (refresh keys brief signed_in (reading (codes "b")) (codes "a")).0 [])
        (reading (codes "c"))
        (codes "a") in
    (later.2 ≡ some err_token_reused)
    × (family_id : Text) × IsSpent (codes "a") family_id later.0.store
    × IsEnded family_id later.0.store
unfolding refresh lookup Text-discrete rotate rotate_request insert_token spend successor_of
    validate_rotate is_revoked is_expired insert get_account complete_session session_claims sign
    validate_claims unix_seconds ◌-ℤ◌ is_known_role
refresh_once_example =
    refresh_once keys brief signed_in (reading (codes "b")) (reading (codes "c")) (codes "a")
      (codes "2") (codes "c") [] refl refl refl

abbrev leaving : LogOutRequest
leaving = record { token_id = codes "j"; token_expiry = noon; refresh_token = codes "a" }

log_out_ends_example :
    let after = (log_out keys signed_in leaving 20).0 in
    IsEnded (codes "f") after.store
    × ((refresh keys brief (meanwhile after []) (reading (codes "c")) (codes "a")).2
        ≡ some err_token_reused)
    × ((is_denied (run_denylist after.denylist (asks (codes "j") 25 ∷ [])) (codes "j") 30).1 ≡ true)
unfolding log_out validate_log_out deny end_family get_record revoke_family validate_revoke lookup
    Text-discrete validate_rotate rotate_request
log_out_ends_example =
    log_out_ends keys brief signed_in leaving 20 30 row (reading (codes "c")) (codes "2")
      (codes "c") [] (asks (codes "j") 25 ∷ []) refl refl refl refl refl refl
      ((λ e. omega arith), tt) refl (omega arith)

denied_until_example :
    ((is_denied
        (run_denylist (deny [] (codes "j") 40).0 (asks (codes "x") 90 ∷ []))
        (codes "j")
        30).1
      ≡ true)
    × ((is_denied
          (run_denylist (deny [] (codes "j") 40).0 (asks (codes "x") 90 ∷ []))
          (codes "j")
          30).2
        ≡ none)
unfolding deny Text-discrete
denied_until_example =
    denied_until [] (asks (codes "x") 90 ∷ []) (codes "j") 40 30 refl
      ((λ e. absurd (ne_of_text_eq (codes "x") (codes "j") refl e)), tt) refl (omega arith)
