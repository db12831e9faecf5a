-- ===== src/Auth/Store/Reuse.antt =====
-- store_memory.go: a token that was spent stays spent, and what presenting it again does.
use ottodot_trial_booking_se.Prelude.{
  All, All-pure, All-to_map, List, Option-cases, Text, Time, [], arith, false, inl, inr, insert,
  is_zero, lookup, lookup-insert_ne, lookup-insert_self, none, refl, some, some-injective, subst,
  sym, true, ◌∙◌, ◌∷◌, ◌≡◌, ◌≢◌,
}
use ottodot_trial_booking_se.Auth.Store.{
  RefreshStore, RefreshRecord, issue, rotate, insert_token, IssueRequest, RotateRequest,
  RevokeFamilyRequest, first_of, successor_of, spend, revoke_family, revoke_family_locked,
  is_revoked, validate_rotate, validate_issue, validate_revoke, ends, revoke_row,
}
use ottodot_trial_booking_se.Auth.Store.Cases.{on_insert, on_rotate, lookup-map}
use ottodot_trial_booking_se.Auth.Store.Schedule.{Call, issues, rotates, revokes, step, run}
use ottodot_trial_booking_se.Auth.Store.Rotation.{rotate_dated}
use ottodot_trial_booking_se.Auth.Errors.{err_token_reused}

-- The hash has a row of the family that is spent or ended.
abbrev pub IsSpent : Text → Text → RefreshStore → Type 0
IsSpent hash family_id store =
    (held : RefreshRecord) × (lookup hash store ≡ some held)
    × (is_revoked held ≡ true)
    × (held.family_id ≡ family_id)

insert_token-IsSpent :
    (store : RefreshStore) (held : RefreshRecord) (hash family_id : Text)
    → IsSpent hash family_id store
    → IsSpent hash family_id (insert_token store held).0
insert_token-IsSpent store held hash family_id (row, found, spent, own) =
    on_insert store held (λ o. IsSpent hash family_id o.0) (row, found, spent, own)
      λ free.
        let apart : held.token_hash ≢ hash = (λ same.
          let here : lookup hash store ≡ none = subst (λ k. lookup k store ≡ none) same free in
          cc) in
        (row, lookup-insert_ne held.token_hash hash held store apart ∙ found, spent, own)

issue-IsSpent :
    (store : RefreshStore) (request : IssueRequest) (hash family_id : Text)
    → IsSpent hash family_id store
    → IsSpent hash family_id (issue store request).0
unfolding issue
issue-IsSpent store request hash family_id s = elim (Option-cases (validate_issue request)) [
  | inr (err, k) ↦ rw (k, issue) s
  | inl k ↦ rw (k, issue) (insert_token-IsSpent store (first_of request) hash family_id s)
]

revoke-IsSpent :
    (store : RefreshStore) (ending : Text) (now : Time) (hash family_id : Text)
    → IsSpent hash family_id store
    → IsSpent hash family_id (revoke_family_locked store ending now).0
unfolding revoke_family_locked revoke_row ends is_revoked
revoke-IsSpent store ending now hash family_id (row, found, spent, own) = (
  revoke_row ending now row,
  lookup-map (revoke_row ending now) hash row store found,
  ground arith,
  ground arith,
)

pub rotate-IsSpent :
    (store : RefreshStore) (request : RotateRequest) (hash family_id : Text)
    → IsSpent hash family_id store
    → IsSpent hash family_id (rotate store request).0
unfolding spend
rotate-IsSpent store request hash family_id (row, found, spent, own) =
    on_rotate store request (λ o. IsSpent hash family_id o.0) (λ err. (row, found, spent, own))
      (λ presented k e r.
        revoke-IsSpent store presented.family_id request.now hash family_id
          (row, found, spent, own))
      λ presented k e r x.
        let apart : request.presented_hash ≢ hash = (λ same.
          let here : lookup hash store ≡ some presented =
            subst (λ h. lookup h store ≡ some presented) same e in
          let one : row ≡ presented = some-injective row presented (sym found ∙ here) in
          let live : is_revoked row ≡ false = rw one r in cc) in
        insert_token-IsSpent (spend store request.presented_hash presented request.now)
          (successor_of presented request) hash family_id
          (row, lookup-insert_ne request.presented_hash hash _ store apart ∙ found, spent, own)

revoke_family-IsSpent :
    (store : RefreshStore) (request : RevokeFamilyRequest) (hash family_id : Text)
    → IsSpent hash family_id store
    → IsSpent hash family_id (revoke_family store request).0
unfolding revoke_family
revoke_family-IsSpent store request hash family_id s =
    elim (Option-cases (validate_revoke request)) [
      | inr (err, k) ↦ rw (k, revoke_family) s
      | inl k ↦
          rw (k, revoke_family)
            (revoke-IsSpent store request.family_id request.now hash family_id s)
    ]

pub run-IsSpent :
    (store : RefreshStore) (calls : List Call) (hash family_id : Text)
    → IsSpent hash family_id store
    → IsSpent hash family_id (run store calls)
unfolding run step
run-IsSpent store [] hash family_id s = s
run-IsSpent store (issues request ∷ calls) hash family_id s =
    run-IsSpent (issue store request).0 calls hash family_id
      (issue-IsSpent store request hash family_id s)
run-IsSpent store (rotates request ∷ calls) hash family_id s =
    run-IsSpent (rotate store request).0 calls hash family_id
      (rotate-IsSpent store request hash family_id s)
run-IsSpent store (revokes request ∷ calls) hash family_id s =
    run-IsSpent (revoke_family store request).0 calls hash family_id
      (revoke_family-IsSpent store request hash family_id s)

-- A rotation that answers a token has spent the one that was presented.
pub rotate-spends :
    (store : RefreshStore) (request : RotateRequest)
    → (rotate store request).2 ≡ none
    → IsSpent request.presented_hash (rotate store request).1.family_id (rotate store request).0
unfolding spend
rotate-spends store request =
    on_rotate store request (λ o. o.2 ≡ none → IsSpent request.presented_hash o.1.family_id o.0)
      (λ err e. absurd cc) (λ presented k e r d. absurd cc)
      λ presented k e r x.
        let spent = record presented { revoked_at = request.now } in
        let after = insert request.presented_hash spent store in
        on_insert after (successor_of presented request)
          (λ o. o.2 ≡ none → IsSpent request.presented_hash o.1.family_id o.0) (λ d. absurd cc)
          λ free d.
            let stored = lookup-insert_self request.presented_hash spent store in
            let apart : (successor_of presented request).token_hash ≢ request.presented_hash =
              (λ same.
                let here : lookup request.presented_hash after ≡ none =
                  subst (λ h. lookup h after ≡ none) same free in
                cc) in
            (
              spent,
              lookup-insert_ne _ request.presented_hash (successor_of presented request) after apart
                  ∙ stored,
              unfold is_revoked in rw (rotate_dated request k) refl,
              unfold successor_of in refl,
            )

-- No token of the family is live.
abbrev pub IsEnded : Text → RefreshStore → Type 0
IsEnded family_id = All (λ row. row.1.family_id ≡ family_id → is_revoked row.1 ≡ true)

pub revoked_row :
    (family_id : Text) (now : Time) (held : RefreshRecord)
    → is_zero now ≡ false
    → (revoke_row family_id now held).family_id ≡ family_id
    → is_revoked (revoke_row family_id now held) ≡ true
unfolding revoke_row ends is_revoked
revoked_row family_id now held dated own = ground arith

pub revoke-IsEnded :
    (store : RefreshStore) (family_id : Text) (now : Time)
    → is_zero now ≡ false
    → IsEnded family_id (revoke_family_locked store family_id now).0
unfolding revoke_family_locked
revoke-IsEnded store family_id now dated =
    All-to_map (λ row. row.1.family_id ≡ family_id → is_revoked row.1 ≡ true)
      (λ row. (row.0, revoke_row family_id now row.1)) store
      (All-pure _ store (λ row own. revoked_row family_id now row.1 dated own))

pub reuse_ends :
    (store : RefreshStore) (request : RotateRequest) (family_id : Text)
    → IsSpent request.presented_hash family_id store
    → validate_rotate request ≡ none
    → ((rotate store request).2 ≡ some err_token_reused)
      × IsEnded family_id (rotate store request).0
unfolding rotate
reuse_ends store request family_id (row, found, spent, own) k =
    rw (k, found, spent, rotate)
      (
        refl,
        subst (λ f. IsEnded family_id (revoke_family_locked store f request.now).0) (sym own)
            (revoke-IsEnded store family_id request.now (rotate_dated request k)),
      )

-- Where a rotation answered a token, then whatever calls come in between, the next rotation that
-- presents the same token and passes the check of its request answers that the token was reused,
-- and leaves no live token in the family of the first answer.
pub token_spends_once :
    (store : RefreshStore) (first again : RotateRequest) (calls : List Call)
    → (rotate store first).2 ≡ none
    → again.presented_hash ≡ first.presented_hash
    → validate_rotate again ≡ none
    → ((rotate (run (rotate store first).0 calls) again).2 ≡ some err_token_reused)
      × IsEnded (rotate store first).1.family_id (rotate (run (rotate store first).0 calls) again).0
token_spends_once store first again calls ok same k =
    let spent =
      run-IsSpent (rotate store first).0 calls first.presented_hash (rotate store first).1.family_id
        (rotate-spends store first ok) in
    reuse_ends (run (rotate store first).0 calls) again (rotate store first).1.family_id
      (subst (λ h. IsSpent h (rotate store first).1.family_id (run (rotate store first).0 calls))
        (sym same) spent)
      k
