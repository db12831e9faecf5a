-- ===== src/Payment/Memory/Once.antt =====
-- repository_memory.go: the attempt that a key names, through the calls of other callers.
use ottodot_trial_booking_se.Prelude.{
  sym, Bool, after, inl, inr, lookup-All, text_cases, ◌∙◌, All, List, Text, [], arith, lookup, none,
  refl, some, true, ◌∷◌, ◌≡◌,
}
use ottodot_trial_booking_se.Payment.Model.{SettleRequest, Attempt, BeginRequest, is_settled}
use ottodot_trial_booking_se.Payment.Memory.Laws.{
  walk_keys-insert_old, HasRow, IsKept, close-IsKept, open-IsKept, walk_keys-append,
  walk_keys-insert_new,
}
use ottodot_trial_booking_se.Payment.Memory.Keys.{
  AllFresh, run, Call, begins, on_begin, on_settle, settles, step,
}
use ottodot_trial_booking_se.Payment.Memory.{
  settle, Repository, begin, by_key, opened_of, settled_of, walk_keys,
}

-- The same attempt, which at most was settled in between.
abbrev pub IsLater : Attempt → Attempt → Type 0
IsLater a later =
    (later.id ≡ a.id) × (later.amount ≡ a.amount) × (is_settled a.status ≡ true → later ≡ a)

abbrev pub StillNames : Repository → Text → Text → Attempt → Type 0
StillNames repository booking_id key a =
    (later : Attempt) × (by_key repository booking_id key ≡ some later) × IsLater a later

-- The attempt that a walk finds stands in the map at its own identifier.
walk_keys-lookup :
    (attempts : List (Text × Attempt)) (booking_id key : Text) (ids : List Text) (a : Attempt)
    → All (HasRow attempts) ids
    → walk_keys attempts booking_id key ids ≡ some a
    → lookup a.id attempts ≡ some a
unfolding walk_keys
walk_keys-lookup attempts booking_id key [] a h e = cc
walk_keys-lookup attempts booking_id key (id ∷ ids) a h e =
    let (b, there, own) = h.0 in ground (arith, walk_keys-lookup attempts booking_id key ids a h.1)

pub step-IsKept :
    (repository : Repository) (call : Call) → IsKept repository → IsKept (step repository call)
unfolding step settled_of
step-IsKept repository (begins request) v =
    on_begin repository request (λ r. IsKept r.0) (λ err. v) (λ stored b e t. v)
      (λ b e. open-IsKept repository (opened_of request) v)
step-IsKept repository (settles request) v =
    on_settle repository request (λ r. IsKept r.0) (λ a err. v)
      (λ stored e t. close-IsKept repository (settled_of stored request) v)

begin-StillNames :
    (repository : Repository) (request : BeginRequest) (booking_id key : Text) (a : Attempt)
    → IsKept repository
    → lookup request.attempt_id repository.attempts ≡ none
    → by_key repository booking_id key ≡ some a
    → StillNames (begin repository request).0 booking_id key a
unfolding by_key opened_of
begin-StillNames repository request booking_id key a v n e =
    on_begin repository request (λ r. StillNames r.0 booking_id key a)
      (λ err. (a, e, (refl, refl, λ s. refl))) (λ stored b k t. (a, e, (refl, refl, λ s. refl)))
      (λ b k. (
        a,
        walk_keys-append _ booking_id key repository.order (request.attempt_id ∷ []) a (
            walk_keys-insert_new repository.attempts booking_id key request.attempt_id
              (opened_of request) repository.order n v.rows
            ∙ e),
        (refl, refl, λ s. refl),
      ))

settle-StillNames :
    (repository : Repository) (request : SettleRequest) (booking_id key : Text) (a : Attempt)
    → IsKept repository
    → by_key repository booking_id key ≡ some a
    → StillNames (settle repository request).0 booking_id key a
unfolding by_key settled_of
settle-StillNames repository request booking_id key a v e =
    on_settle repository request (λ r. StillNames r.0 booking_id key a)
      (λ b err. (a, e, (refl, refl, λ s. refl)))
      λ stored found t.
        let named : stored.id ≡ request.attempt_id =
          lookup-All (λ row. row.1.id ≡ row.0) request.attempt_id stored repository.attempts v.keyed
            found in
        let here : lookup stored.id repository.attempts ≡ some stored = simp named found in
        let walked =
          walk_keys-insert_old repository.attempts booking_id key stored (settled_of stored request)
            repository.order a here refl refl v.rows e in
        let there =
          walk_keys-lookup repository.attempts booking_id key repository.order a v.rows e in
        elim (text_cases a.id stored.id) [
          | inl (u, same) ↦
              let one : stored ≡ a = cc in
              (
                settled_of stored request,
                rw (walked, u) refl,
                (sym same, (λ i. (one i).amount), λ s. cc),
              )
          | inr (u, apart) ↦ (a, rw (walked, u) refl, (refl, refl, λ s. refl))
        ]

pub run-StillNames :
    (repository : Repository) (calls : List Call) (booking_id key : Text) (a : Attempt)
    → IsKept repository
    → AllFresh repository calls
    → by_key repository booking_id key ≡ some a
    → StillNames (run repository calls) booking_id key a
unfolding run step
run-StillNames repository [] booking_id key a v f e = (a, e, (refl, refl, λ s. refl))
run-StillNames repository (begins request ∷ calls) booking_id key a v f e =
    let (b, found, (same, owed, kept)) =
      begin-StillNames repository request booking_id key a v f.0 e in
    let (c, last, (same', owed', kept')) =
      run-StillNames (begin repository request).0 calls booking_id key b
        (step-IsKept repository (begins request) v) f.1 found in
    (c, last, (same' ∙ same, owed' ∙ owed, λ s. kept' (rw (kept s) s) ∙ kept s))
run-StillNames repository (settles request ∷ calls) booking_id key a v f e =
    let (b, found, (same, owed, kept)) =
      settle-StillNames repository request booking_id key a v e in
    let (c, last, (same', owed', kept')) =
      run-StillNames (settle repository request).0 calls booking_id key b
        (step-IsKept repository (settles request) v) f.1 found in
    (c, last, (same' ∙ same, owed' ∙ owed, λ s. kept' (rw (kept s) s) ∙ kept s))

-- Where the rows of the repository stand under their identifiers: once an attempt has a booking's key, no schedule of calls by any callers, each begun with an
-- identifier that is new, makes begin open another one for that key: where begin succeeds after the
-- schedule, it writes nothing, says that it is a replay, and answers the attempt with the same
-- identifier and the same amount.
pub key_opens_once :
    (repository : Repository) (calls : List Call) (request : BeginRequest) (a b : Attempt)
    (after : Repository) (replayed : Bool)
    → IsKept repository
    → AllFresh repository calls
    → by_key repository request.booking_id request.idempotency_key ≡ some a
    → begin (run repository calls) request ≡ (after, b, replayed, none)
    → (after ≡ run repository calls) × (replayed ≡ true) × (b.id ≡ a.id) × (b.amount ≡ a.amount)
key_opens_once repository calls request a b after replayed v f e =
    let (later, found, (same, owed, kept)) =
      run-StillNames repository calls request.booking_id request.idempotency_key a v f e in
    on_begin (run repository calls) request
      (λ r.
        r ≡ (after, b, replayed, none)
        → (after ≡ run repository calls)
          × (replayed ≡ true)
          × (b.id ≡ a.id)
          × (b.amount ≡ a.amount))
      (λ err q. cc) (λ stored b k t q. (cc, cc, cc, cc)) (λ b k q. cc)

-- Once the attempt of a key is settled, no schedule of calls, each begun with an identifier that is
-- new, changes it: not its status, its reference, its amount nor its instants. The rows of the
-- repository stand under their identifiers.
pub settled_for_good :
    (repository : Repository) (calls : List Call) (booking_id key : Text) (a : Attempt)
    → IsKept repository
    → AllFresh repository calls
    → by_key repository booking_id key ≡ some a
    → is_settled a.status ≡ true
    → by_key (run repository calls) booking_id key ≡ some a
settled_for_good repository calls booking_id key a v f e s =
    let (later, found, (same, owed, kept)) =
      run-StillNames repository calls booking_id key a v f e in
    let steady = kept s in cc
