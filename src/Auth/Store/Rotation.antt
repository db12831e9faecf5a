-- ===== src/Auth/Store/Rotation.antt =====
-- store_memory.go: what rotation promises of a chain of tokens.
use ottodot_trial_booking_se.Prelude.{
  All, All-map, List, Option-cases, [], arith, false, inl, inr, is_zero, none, text_eq, ◌∷◌, ◌≡◌,
}
use ottodot_trial_booking_se.Auth.Store.{
  RefreshStore, issue, rotate, IssueRequest, RotateRequest, RevokeFamilyRequest, first_of,
  successor_of, spend, revoke_family, validate_rotate, validate_issue, validate_revoke,
}
use ottodot_trial_booking_se.Auth.Store.Cases.{on_rotate}
use ottodot_trial_booking_se.Auth.Store.Schedule.{
  Idle, insert_token-IsChained, revoke-IsChained, spend-Idle, spend-IsChained, Call, issues,
  rotates, revokes, step, run, IsChained,
}

pub rotate_dated :
    (request : RotateRequest) → validate_rotate request ≡ none → is_zero request.now ≡ false
unfolding validate_rotate
rotate_dated request v = ground arith

-- Every family that a call starts is new.
abbrev pub AllFresh : RefreshStore → List Call → Type 0
AllFresh store [] = Unit
AllFresh store (issues request ∷ calls) =
    All (λ row. text_eq row.1.family_id request.family_id ≡ false) store
    × AllFresh (issue store request).0 calls
AllFresh store (rotates request ∷ calls) = AllFresh (rotate store request).0 calls
AllFresh store (revokes request ∷ calls) = AllFresh (revoke_family store request).0 calls

issue-IsChained :
    (store : RefreshStore) (request : IssueRequest)
    → All (λ row. text_eq row.1.family_id request.family_id ≡ false) store
    → IsChained store
    → IsChained (issue store request).0
unfolding issue first_of
issue-IsChained store request fresh v = elim (Option-cases (validate_issue request)) [
  | inr (err, k) ↦ rw (k, issue) v
  | inl k ↦
      rw (k, issue)
        (insert_token-IsChained store (first_of request) v (
          All-map (λ row. text_eq row.1.family_id request.family_id ≡ false)
            (Idle request.family_id) store (λ row away. ground arith) fresh))
]

rotate-IsChained :
    (store : RefreshStore) (request : RotateRequest)
    → IsChained store
    → IsChained (rotate store request).0
rotate-IsChained store request v =
    on_rotate store request (λ o. IsChained o.0) (λ err. v)
      (λ presented k e r. revoke-IsChained store presented.family_id request.now v)
      λ presented k e r x.
        let dated = rotate_dated request k in
        insert_token-IsChained (spend store request.presented_hash presented request.now)
          (successor_of presented request)
          (spend-IsChained store request.presented_hash presented request.now v e r dated)
          (unfold successor_of in
            spend-Idle store request.presented_hash presented request.now v e r dated)

revoke_family-IsChained :
    (store : RefreshStore) (request : RevokeFamilyRequest)
    → IsChained store
    → IsChained (revoke_family store request).0
unfolding revoke_family
revoke_family-IsChained store request v = elim (Option-cases (validate_revoke request)) [
  | inr (err, k) ↦ rw (k, revoke_family) v
  | inl k ↦ rw (k, revoke_family) (revoke-IsChained store request.family_id request.now v)
]

-- From a store in which each family has at most one live token and each hash one row, every schedule
-- of sign-ins, rotations and revocations whose sign-ins start new families keeps it so.
pub run-IsChained :
    (store : RefreshStore) (calls : List Call)
    → IsChained store
    → AllFresh store calls
    → IsChained (run store calls)
unfolding run step
run-IsChained store [] v f = v
run-IsChained store (issues request ∷ calls) v f =
    run-IsChained (issue store request).0 calls (issue-IsChained store request f.0 v) f.1
run-IsChained store (rotates request ∷ calls) v f =
    run-IsChained (rotate store request).0 calls (rotate-IsChained store request v) f
run-IsChained store (revokes request ∷ calls) v f =
    run-IsChained (revoke_family store request).0 calls (revoke_family-IsChained store request v) f
