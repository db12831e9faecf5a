-- ===== src/Auth/Store/Examples.antt =====
-- Runs of the store of refresh tokens on concrete inputs.
use ottodot_trial_booking_se.Prelude.{
  List, Text, Text-discrete, [], codes, insert, lookup, refl, some, ◌∷◌, ◌≡◌,
}
use ottodot_trial_booking_se.Auth.Store.{
  insert_token, is_expired, is_revoked, spend, successor_of, validate_rotate, RefreshStore,
  RefreshRecord, RotateRequest, IssueRequest, rotate,
}
use ottodot_trial_booking_se.Auth.Store.Schedule.{Call, issues, rotates, run, IsChained}
use ottodot_trial_booking_se.Auth.Store.Rotation.{run-IsChained}
use ottodot_trial_booking_se.Auth.Store.Reuse.{IsEnded, token_spends_once}
use ottodot_trial_booking_se.Auth.Errors.{err_token_reused}

abbrev live_row : RefreshRecord
live_row = record {
  id = codes "1";
  parent_id = codes "p";
  family_id = codes "f";
  token_hash = codes "a";
  expires_at = 100;
  revoked_at = 0;
  created_at = 1;
}

abbrev one_token : RefreshStore
one_token = (codes "a", live_row) ∷ []

abbrev rotation : Text → Text → RotateRequest
rotation presented next = record {
  presented_hash = presented;
  next_token_id = codes "2";
  next_token_hash = next;
  next_expires_at = 200;
  now = 10;
}

abbrev sign_in : IssueRequest
sign_in = record {
  token_id = codes "3";
  parent_id = codes "q";
  family_id = codes "g";
  token_hash = codes "c";
  expires_at = 300;
  now = 12;
}

abbrev visits : List Call
visits = rotates (rotation (codes "a") (codes "b")) ∷ issues sign_in ∷ []

run-IsChained_example : IsChained (run one_token visits)
unfolding lookup Text-discrete rotate insert_token spend successor_of validate_rotate is_revoked
    is_expired insert
run-IsChained_example = run-IsChained one_token visits (tt, tt) ((refl, (refl, tt)), tt)

token_spends_once_example :
    let after = run (rotate one_token (rotation (codes "a") (codes "b"))).0 (issues sign_in ∷ []) in
    let told = rotate after (rotation (codes "a") (codes "d")) in
    (told.2 ≡ some err_token_reused)
    × IsEnded (rotate one_token (rotation (codes "a") (codes "b"))).1.family_id told.0
unfolding lookup Text-discrete rotate insert_token spend successor_of validate_rotate is_revoked
    is_expired insert
token_spends_once_example =
    token_spends_once one_token (rotation (codes "a") (codes "b"))
      (rotation (codes "a") (codes "d")) (issues sign_in ∷ []) refl refl refl
