-- ===== src/Auth/Denylist.antt =====
-- backend/internal/auth/denylist_memory.go: the access tokens that were withdrawn.
use ottodot_trial_booking_se.Prelude.{
  All, Bool, Bool-cases, List, Option, Option-cases, Text, Time, [], arith, before, delete, false,
  if◌then◌else◌, inl, inr, insert, is_empty, is_zero, length, lookup, lookup-insert,
  lookup-insert_ne, lookup-insert_self, none, not, refl, some, some-injective, subst, sym,
  text_cases, true, ℕ, ◌<◌, ◌||◌, ◌∙◌, ◌∷◌, ◌≡◌, ◌≢◌, ◌≤◌,
}
use ottodot_trial_booking_se.Auth.Errors.{Error, err_invalid_request}

-- `MemoryDenylist` is its one field, the instant until which each identifier is withdrawn.
abbrev pub Denylist : Type 0
Denylist = List (Text × Time)

unfoldable pub new_denylist : Denylist
new_denylist = []

unfoldable pub deny : Denylist → Text → Time → Denylist × Option Error
deny denylist token_id until =
    if is_empty token_id || is_zero until
    then (denylist, some err_invalid_request)
    else (insert token_id until denylist, none)

-- A denial that has passed is dropped when it is looked at.
unfoldable pub is_denied : Denylist → Text → Time → Denylist × Bool × Option Error
is_denied denylist token_id now =
    if is_empty token_id || is_zero now
    then (denylist, false, some err_invalid_request)
    else elim (lookup token_id denylist) [
      | none ↦ (denylist, false, none)
      | some deadline ↦
          if not (before now deadline)
          then (delete token_id denylist, false, none)
          else (denylist, true, none)
    ]

unfoldable pub size : Denylist → ℕ
size denylist = length denylist

-- A call by anybody.
pub data Call : Type 0 where
  denies : Text → Time → Call
  asks : Text → Time → Call

unfoldable pub step : Denylist → Call → Denylist
step denylist (denies token_id until) = (deny denylist token_id until).0
step denylist (asks token_id now) = (is_denied denylist token_id now).0

unfoldable pub run : Denylist → List Call → Denylist
run denylist [] = denylist
run denylist (call ∷ calls) = run (step denylist call) calls

-- The calls about the token come before its expiry, and deny it until no sooner.
abbrev pub Respects : Text → Time → Call → Type 0
Respects token_id until (denies other_id later) = other_id ≡ token_id → until ≤ later
Respects token_id until (asks other_id now) = other_id ≡ token_id → now < until

abbrev Holds : Text → Time → Denylist → Type 0
Holds token_id until denylist =
    (deadline : Time) × (lookup token_id denylist ≡ some deadline) × (until ≤ deadline)

delete-other : (j k : Text) (m : Denylist) → j ≢ k → lookup k (delete j m) ≡ lookup k m
unfolding lookup delete
delete-other j k [] n = refl
delete-other j k ((i, t) ∷ m) n = ground (arith, delete-other j k m n)

deny-Holds :
    (denylist : Denylist) (token_id : Text) (until : Time) (other_id : Text) (later : Time)
    → (other_id ≡ token_id → until ≤ later)
    → Holds token_id until denylist
    → Holds token_id until (deny denylist other_id later).0
unfolding deny
deny-Holds denylist token_id until other_id later r h =
    elim (Bool-cases (is_empty other_id || is_zero later)) [
      | inl t ↦ rw (t, deny) h
      | inr t ↦
          rw (t, deny)
            (elim (text_cases other_id token_id) [
              | inl (e, same) ↦
                  (later, rw (lookup-insert other_id token_id later denylist, e) refl, r same)
              | inr (e, away) ↦
                  (h.0, lookup-insert_ne other_id token_id later denylist away ∙ h.1, h.2)
            ])
    ]

asked-Holds :
    (denylist : Denylist) (token_id : Text) (until : Time) (other_id : Text) (now deadline : Time)
    → lookup other_id denylist ≡ some deadline
    → (other_id ≡ token_id → now < until)
    → not (before now deadline) ≡ true
    → Holds token_id until denylist
    → Holds token_id until (delete other_id denylist)
asked-Holds denylist token_id until other_id now deadline found r late (mine, there, l) =
    elim (text_cases other_id token_id) [
      | inl (e, same) ↦
          let here : lookup token_id denylist ≡ some deadline =
            subst (λ k. lookup k denylist ≡ some deadline) same found in
          let one : mine ≡ deadline = some-injective mine deadline (sym there ∙ here) in
          let soon : now < until = r same in absurd (ground arith)
      | inr (e, away) ↦ (mine, delete-other other_id token_id denylist away ∙ there, l)
    ]

is_denied-Holds :
    (denylist : Denylist) (token_id : Text) (until : Time) (other_id : Text) (now : Time)
    → (other_id ≡ token_id → now < until)
    → Holds token_id until denylist
    → Holds token_id until (is_denied denylist other_id now).0
unfolding is_denied
is_denied-Holds denylist token_id until other_id now r h =
    elim (Bool-cases (is_empty other_id || is_zero now)) [
      | inl t ↦ rw (t, is_denied) h
      | inr t ↦
          rw (t, is_denied)
            (elim (Option-cases (lookup other_id denylist)) [
              | inl e ↦ rw (e, is_denied) h
              | inr (deadline, e) ↦
                  rw (e, is_denied)
                    (elim (Bool-cases (not (before now deadline))) [
                      | inr b ↦ rw (b, is_denied) h
                      | inl b ↦
                          rw (b, is_denied)
                            (asked-Holds denylist token_id until other_id now deadline e r b h)
                    ])
            ])
    ]

run-Holds :
    (denylist : Denylist) (calls : List Call) (token_id : Text) (until : Time)
    → All (Respects token_id until) calls
    → Holds token_id until denylist
    → Holds token_id until (run denylist calls)
unfolding run step
run-Holds denylist [] token_id until r h = h
run-Holds denylist (denies other_id later ∷ calls) token_id until r h =
    run-Holds (deny denylist other_id later).0 calls token_id until r.1
      (deny-Holds denylist token_id until other_id later r.0 h)
run-Holds denylist (asks other_id now ∷ calls) token_id until r h =
    run-Holds (is_denied denylist other_id now).0 calls token_id until r.1
      (is_denied-Holds denylist token_id until other_id now r.0 h)

-- A token that was withdrawn until an instant is reported as withdrawn at every earlier one (but the
-- zero instant), after any calls that ask about it only before that instant and withdraw it again
-- until no sooner.
pub denied_until :
    (denylist : Denylist) (calls : List Call) (token_id : Text) (until now : Time)
    → (deny denylist token_id until).1 ≡ none
    → All (Respects token_id until) calls
    → is_zero now ≡ false
    → now < until
    → ((is_denied (run (deny denylist token_id until).0 calls) token_id now).1 ≡ true)
      × ((is_denied (run (deny denylist token_id until).0 calls) token_id now).2 ≡ none)
unfolding deny is_denied
denied_until denylist calls token_id until now =
    elim (Bool-cases (is_empty token_id || is_zero until)) [
      | inl t ↦ rw (t, deny) (λ ok. absurd cc)
      | inr t ↦
          rw (t, deny)
            (λ ok r dated soon.
              let named : is_empty token_id ≡ false = ground arith in
              let (deadline, there, l) =
                run-Holds (insert token_id until denylist) calls token_id until r
                  (until, lookup-insert_self token_id until denylist, omega arith) in
              let early : before now deadline ≡ true = ground arith in
              rw (named, dated, there, early, is_denied) (refl, refl))
    ]
