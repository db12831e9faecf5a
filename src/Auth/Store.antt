-- ===== src/Auth/Store.antt =====
-- backend/internal/auth: store.go and store_memory.go, the refresh tokens under one mutex. A row is
-- stored under the bytes of its hash; the rows that the Go map points to are reached by it alone.
mod Examples
pub mod Cases
pub mod Schedule
pub mod Rotation
pub mod Reuse
use ottodot_trial_booking_se.Prelude.{
  Bool, List, Option, Text, Time, [], after, before, if◌then◌else◌, insert, is_empty, is_zero,
  lookup, map, none, not, some, tally, text_eq, ℕ, ◌||◌,
}
use ottodot_trial_booking_se.Auth.Errors.{
  Error, err_invalid_request, err_token_not_found, err_token_reused, err_token_expired,
  err_duplicate_token,
}

pub record RefreshRecord : Type 0 where
  pub id : Text
  pub parent_id : Text
  pub family_id : Text
  pub token_hash : Text
  pub expires_at : Time
  pub revoked_at : Time
  pub created_at : Time

-- The zero value `RefreshRecord{}`.
abbrev pub no_record : RefreshRecord
no_record = record {
  id = [];
  parent_id = [];
  family_id = [];
  token_hash = [];
  expires_at = 0;
  revoked_at = 0;
  created_at = 0;
}

unfoldable pub is_revoked : RefreshRecord → Bool
is_revoked held = not (is_zero held.revoked_at)

unfoldable pub is_expired : RefreshRecord → Time → Bool
is_expired held now = not (before now held.expires_at)

pub record IssueRequest : Type 0 where
  pub token_id : Text
  pub parent_id : Text
  pub family_id : Text
  pub token_hash : Text
  pub expires_at : Time
  pub now : Time

unfoldable pub validate_issue : IssueRequest → Option Error
validate_issue request =
    if is_empty request.token_id || (is_empty request.parent_id || is_empty request.family_id)
    then some err_invalid_request
    else if is_empty request.token_hash || is_zero request.now
    then some err_invalid_request
    else if not (after request.expires_at request.now)
    then some err_invalid_request
    else none

pub record RotateRequest : Type 0 where
  pub presented_hash : Text
  pub next_token_id : Text
  pub next_token_hash : Text
  pub next_expires_at : Time
  pub now : Time

unfoldable pub validate_rotate : RotateRequest → Option Error
validate_rotate request =
    if is_empty request.presented_hash || is_empty request.next_token_hash
    then some err_invalid_request
    else if is_empty request.next_token_id || is_zero request.now
    then some err_invalid_request
    else if not (after request.next_expires_at request.now)
    then some err_invalid_request
    else none

pub record RevokeFamilyRequest : Type 0 where
  pub family_id : Text
  pub now : Time

unfoldable pub validate_revoke : RevokeFamilyRequest → Option Error
validate_revoke request =
    if is_empty request.family_id || is_zero request.now then some err_invalid_request else none

-- `MemoryRefreshStore` is its one field, the map of rows.
abbrev pub RefreshStore : Type 0
RefreshStore = List (Text × RefreshRecord)

unfoldable pub new_store : RefreshStore
new_store = []

-- insertLocked
unfoldable pub insert_token :
    RefreshStore → RefreshRecord → RefreshStore × RefreshRecord × Option Error
insert_token store held = elim (lookup held.token_hash store) [
  | some taken ↦ (store, no_record, some err_duplicate_token)
  | none ↦ (insert held.token_hash held store, held, none)
]

unfoldable pub first_of : IssueRequest → RefreshRecord
first_of request = record {
  id = request.token_id;
  parent_id = request.parent_id;
  family_id = request.family_id;
  token_hash = request.token_hash;
  expires_at = request.expires_at;
  revoked_at = 0;
  created_at = request.now;
}

unfoldable pub issue : RefreshStore → IssueRequest → RefreshStore × RefreshRecord × Option Error
issue store request = elim (validate_issue request) [
  | some err ↦ (store, no_record, some err)
  | none ↦ insert_token store (first_of request)
]

-- The loop of revokeFamilyLocked: which rows end, and what becomes of a row.
unfoldable pub ends : Text → RefreshRecord → Bool
ends family_id held = not (not (text_eq held.family_id family_id) || is_revoked held)

unfoldable pub revoke_row : Text → Time → RefreshRecord → RefreshRecord
revoke_row family_id now held =
    if ends family_id held then record held { revoked_at = now } else held

unfoldable pub revoke_family_locked : RefreshStore → Text → Time → RefreshStore × ℕ
revoke_family_locked store family_id now = (
  map (λ row. (row.0, revoke_row family_id now row.1)) store,
  tally (λ row. ends family_id row.1) store,
)

unfoldable pub successor_of : RefreshRecord → RotateRequest → RefreshRecord
successor_of presented request = record {
  id = request.next_token_id;
  parent_id = presented.parent_id;
  family_id = presented.family_id;
  token_hash = request.next_token_hash;
  expires_at = request.next_expires_at;
  revoked_at = 0;
  created_at = request.now;
}

-- `presented.RevokedAt = request.Now` writes through the pointer.
unfoldable pub spend : RefreshStore → Text → RefreshRecord → Time → RefreshStore
spend store hash presented now = insert hash (record presented { revoked_at = now }) store

unfoldable pub rotate : RefreshStore → RotateRequest → RefreshStore × RefreshRecord × Option Error
rotate store request = elim (validate_rotate request) [
  | some err ↦ (store, no_record, some err)
  | none ↦ elim (lookup request.presented_hash store) [
    | none ↦ (store, no_record, some err_token_not_found)
    | some presented ↦
        if is_revoked presented
        then (
          (revoke_family_locked store presented.family_id request.now).0,
          no_record,
          some err_token_reused,
        )
        else if is_expired presented request.now
        then (store, no_record, some err_token_expired)
        else insert_token (spend store request.presented_hash presented request.now)
            (successor_of presented request)
  ]
]

unfoldable pub revoke_family : RefreshStore → RevokeFamilyRequest → RefreshStore × ℕ × Option Error
revoke_family store request = elim (validate_revoke request) [
  | some err ↦ (store, 0, some err)
  | none ↦
      let (ended, count) = revoke_family_locked store request.family_id request.now in
      (ended, count, none)
]

unfoldable pub get_record : RefreshStore → Text → RefreshRecord × Option Error
get_record store token_hash =
    if is_empty token_hash
    then (no_record, some err_invalid_request)
    else elim (lookup token_hash store) [
      | none ↦ (no_record, some err_token_not_found)
      | some stored ↦ (stored, none)
    ]
