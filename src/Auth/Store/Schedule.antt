-- ===== src/Auth/Store/Schedule.antt =====
-- store_memory.go: any callers, one call at a time, and the chains of tokens.
use ottodot_trial_booking_se.Prelude.{
  All, All-map, Bool, List, Pairwise, Pairwise-impl, Pairwise-map, Text, Time, [], arith, false,
  insert-Pairwise, is_zero, lookup, lookup-Pairwise, not, some, sym, text_eq, ◌&&◌, ◌∷◌, ◌≡◌, ◌≢◌,
}
use ottodot_trial_booking_se.Auth.Store.{
  RefreshStore, RefreshRecord, issue, rotate, insert_token, IssueRequest, RotateRequest,
  RevokeFamilyRequest, spend, revoke_family, revoke_family_locked, is_revoked, ends, revoke_row,
}
use ottodot_trial_booking_se.Auth.Store.Cases.{on_insert, insert-All_apart}

pub data Call : Type 0 where
  issues : IssueRequest → Call
  rotates : RotateRequest → Call
  revokes : RevokeFamilyRequest → Call

unfoldable pub step : RefreshStore → Call → RefreshStore
step store (issues request) = (issue store request).0
step store (rotates request) = (rotate store request).0
step store (revokes request) = (revoke_family store request).0

unfoldable pub run : RefreshStore → List Call → RefreshStore
run store [] = store
run store (call ∷ calls) = run (step store call) calls

-- Two live tokens of one family.
unfoldable pub both_live : RefreshRecord → RefreshRecord → Bool
both_live a b = not (is_revoked a) && (not (is_revoked b) && text_eq a.family_id b.family_id)

abbrev pub IsApart : Text × RefreshRecord → Text × RefreshRecord → Type 0
IsApart (j, a) (k, b) = (j ≢ k) × (both_live a b ≡ false)

-- Every family has at most one live token, and every hash one row.
abbrev pub IsChained : RefreshStore → Type 0
IsChained = Pairwise IsApart

IsApart-keyed : (a b : Text × RefreshRecord) → IsApart a b → a.0 ≢ b.0
IsApart-keyed a b h = h.0

IsApart-symm : (a b : Text × RefreshRecord) → IsApart a b → IsApart b a
unfolding both_live
IsApart-symm (j, a) (k, b) h = ground arith

revoke-IsApart :
    (family_id : Text) (now : Time) (a b : Text × RefreshRecord)
    → IsApart a b
    → IsApart (a.0, revoke_row family_id now a.1) (b.0, revoke_row family_id now b.1)
unfolding both_live revoke_row ends is_revoked
revoke-IsApart family_id now (j, a) (k, b) h = (h.0, ground arith)

pub revoke-IsChained :
    (store : RefreshStore) (family_id : Text) (now : Time)
    → IsChained store
    → IsChained (revoke_family_locked store family_id now).0
unfolding revoke_family_locked
revoke-IsChained store family_id now v =
    Pairwise-map IsApart (λ row. (row.0, revoke_row family_id now row.1)) store
      (Pairwise-impl IsApart
        (λ a b. IsApart (a.0, revoke_row family_id now a.1) (b.0, revoke_row family_id now b.1))
        store (revoke-IsApart family_id now) v)

-- No row of the family is live.
abbrev pub Idle : Text → Text × RefreshRecord → Type 0
Idle family_id (key, held) = (not (is_revoked held) && text_eq held.family_id family_id) ≡ false

pub insert_token-IsChained :
    (store : RefreshStore) (held : RefreshRecord)
    → IsChained store
    → All (Idle held.family_id) store
    → IsChained (insert_token store held).0
unfolding both_live
insert_token-IsChained store held v idle =
    on_insert store held (λ o. IsChained o.0) v
      λ e. insert-Pairwise IsApart held.token_hash held store IsApart-keyed IsApart-symm v (
        All-map (Idle held.family_id)
          (λ r. r.0 ≢ held.token_hash → IsApart (held.token_hash, held) r) store
          (λ (k, b) quiet n. ((λ same. n (sym same)), ground arith)) idle)

module _ (store : RefreshStore) (hash : Text) (presented : RefreshRecord) (now : Time)
    (v : IsChained store) (found : lookup hash store ≡ some presented)
    (live : is_revoked presented ≡ false) (dated : is_zero now ≡ false) where
  others : All (λ r. r.0 ≢ hash → IsApart (hash, presented) r) store
  others = lookup-Pairwise IsApart hash presented store IsApart-symm v found

  pub spend-IsChained : IsChained (spend store hash presented now)
  unfolding spend both_live is_revoked
  spend-IsChained =
      insert-Pairwise IsApart hash (record presented { revoked_at = now }) store IsApart-keyed
        IsApart-symm v
        (All-map (λ r. r.0 ≢ hash → IsApart (hash, presented) r)
          (λ r. r.0 ≢ hash → IsApart (hash, record presented { revoked_at = now }) r) store
          (λ (k, b) away n. ((away n).0, ground arith)) others)

  pub spend-Idle : All (Idle presented.family_id) (spend store hash presented now)
  unfolding spend both_live is_revoked
  spend-Idle =
      insert-All_apart (Idle presented.family_id) IsApart hash
        (record presented { revoked_at = now }) store IsApart-keyed v
        (All-map (λ r. r.0 ≢ hash → IsApart (hash, presented) r)
          (λ r. r.0 ≢ hash → Idle presented.family_id r) store
          (λ (k, b) away n. ground (arith, (away n).1)) others)
        (ground arith)
