-- ===== src/Auth/Store/Cases.antt =====
-- store_memory.go: the ways in which its methods end, and what a lookup finds after a walk.
use ottodot_trial_booking_se.Prelude.{
  All, All-zip, Bool-cases, Keyed, List, Option, Option-cases, Pairwise, Text, [], ap, false, inl,
  inr, insert, lookup, map, none, some, some-injective, sym, text_cases, true, ◌∙◌, ◌∷◌, ◌≡◌, ◌≢◌,
}
use ottodot_trial_booking_se.Auth.Store.{
  RefreshStore, RefreshRecord, rotate, insert_token, RotateRequest, successor_of, spend,
  revoke_family_locked, no_record, is_revoked, is_expired, validate_rotate,
}
use ottodot_trial_booking_se.Auth.Errors.{err_token_reused, Error, err_duplicate_token}

abbrev pub Answer : Type 0
Answer = RefreshStore × RefreshRecord × Option Error

module _ (store : RefreshStore) (held : RefreshRecord) (P : Answer → Type 0)
    (taken : P (store, no_record, some err_duplicate_token))
    (writes : lookup held.token_hash store ≡ none
      → P (insert held.token_hash held store, held, none)) where
  pub on_insert : P (insert_token store held)
  unfolding insert_token
  on_insert = elim (Option-cases (lookup held.token_hash store)) [
    | inr (found, e) ↦ rw (e, insert_token) taken
    | inl e ↦ rw (e, insert_token) (writes e)
  ]

module _ (store : RefreshStore) (request : RotateRequest) (P : Answer → Type 0)
    (refuses : (err : Error) → P (store, no_record, some err))
    (reuses : (presented : RefreshRecord)
      → validate_rotate request ≡ none
      → lookup request.presented_hash store ≡ some presented
      → is_revoked presented ≡ true
      → P (
        (revoke_family_locked store presented.family_id request.now).0,
        no_record,
        some err_token_reused,
      ))
    (spends : (presented : RefreshRecord)
      → validate_rotate request ≡ none
      → lookup request.presented_hash store ≡ some presented
      → is_revoked presented ≡ false
      → is_expired presented request.now ≡ false
      → P (
          insert_token
            (spend store request.presented_hash presented request.now)
            (successor_of presented request))) where
  pub on_rotate : P (rotate store request)
  unfolding rotate
  on_rotate = elim (Option-cases (validate_rotate request)) [
    | inr (err, v) ↦ rw (v, rotate) (refuses err)
    | inl v ↦
        rw (v, rotate)
          (elim (Option-cases (lookup request.presented_hash store)) [
            | inl e ↦ rw (e, rotate) (refuses _)
            | inr (presented, e) ↦
                rw (e, rotate)
                  (elim (Bool-cases (is_revoked presented)) [
                    | inl r ↦ rw (r, rotate) (reuses presented v e r)
                    | inr r ↦
                        rw (r, rotate)
                          (elim (Bool-cases (is_expired presented request.now)) [
                            | inl x ↦ rw (x, rotate) (refuses _)
                            | inr x ↦ rw (x, rotate) (spends presented v e r x)
                          ])
                  ])
          ])
  ]

module _ {ℓ} {V : Type ℓ} where
  -- A walk that rewrites each row in its place.
  pub lookup-map :
      (f : V → V) (k : Text) (v : V) (m : List (Text × V))
      → lookup k m ≡ some v
      → lookup k (map (λ row. (row.0, f row.1)) m) ≡ some (f v)
  unfolding lookup
  lookup-map f k v [] e = cc
  lookup-map f k v ((j, w) ∷ m) e = elim (text_cases j k) [
    | inl (t, same) ↦
        let here : some w ≡ some v = rw t at e in
        rw t (ap (λ u. some (f u)) (some-injective w v here))
    | inr (t, away) ↦ let there : lookup k m ≡ some v = rw t at e in rw t (lookup-map f k v m there)
  ]

module _ {ℓ κ} {V : Type ℓ} where
  -- A write to a key, where the other rows satisfy the predicate already.
  pub insert-All_apart :
      (P : Text × V → Type κ) (R : Text × V → Text × V → Type κ) (k : Text) (v : V)
      (m : List (Text × V))
      → Keyed R
      → Pairwise R m
      → All (λ r. r.0 ≢ k → P r) m
      → P (k, v)
      → All P (insert k v m)
  unfolding insert
  insert-All_apart P R k v [] keyed h a p = (p, tt)
  insert-All_apart P R k v ((j, w) ∷ m) keyed h a p = elim (text_cases j k) [
    | inl (t, same) ↦ rw t (
      p,
      All-zip (R (j, w)) (λ r. r.0 ≢ k → P r) P m
          (λ r away f. f (λ e. keyed (j, w) r away (same ∙ sym e))) h.0 a.1,
    )
    | inr (t, away) ↦ rw t (a.0 away, insert-All_apart P R k v m keyed h.1 a.1 p)
  ]
