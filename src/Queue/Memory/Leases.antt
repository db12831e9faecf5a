-- ===== src/Queue/Memory/Leases.antt =====
-- queue_memory.go: what a claim does to the job with one identifier.
use ottodot_trial_booking_se.Queue.Model.{no_job, ClaimRequest, Job, validate_claim}
use ottodot_trial_booking_se.Queue.Memory.{
  claimable, due_first, first_jobs, is_claimable, leased_of, Queue, claim, claimed_batch, jobs_of,
  write_all,
}
use ottodot_trial_booking_se.Prelude.{
  ne_of_text_eq, All-any-false, All-map, All-select, All-select_test, All-take, All-zip, Bool-cases,
  ap, length, ltb_ℤ, pos, pos_part, sort, sort-All, All-to_map, false, none, some-injective,
  text_cases, true, ◌∙◌, ◌⊎◌, All, All-pure, Bool, List, Option-cases, Pairwise, Text, [], any,
  arith, if◌then◌else◌, inl, inr, insert, insert-All, insert-Pairwise, lookup, lookup-insert, refl,
  some, sym, text_eq, ◌∷◌, ◌≡◌, ◌≢◌,
}

-- Each job stands under its identifier, once.
pub record IsKeyed (queue : Queue) : Type 0 where
  pub named : All (λ row. row.1.id ≡ row.0) queue
  pub apart : Pairwise (λ a b. a.0 ≢ b.0) queue

abbrev pub names : Text → List Job → Bool
names id jobs = any (λ job. text_eq job.id id) jobs

-- Every job of the list with the identifier is that job.
abbrev pub Fits : Text → Job → Job → Type 0
Fits id job entry = entry.id ≡ id → entry ≡ job

abbrev pub Only : Text → Job → List Job → Type 0
Only id job jobs = All (Fits id job) jobs

rows-Only :
    (queue : Queue) (id : Text) (job : Job)
    → IsKeyed queue
    → lookup id queue ≡ some job
    → Only id job (jobs_of queue)
unfolding lookup
rows-Only [] id job v e = tt
rows-Only ((key, entry) ∷ queue) id job v e = elim (text_cases key id) [
  | inl (t, same) ↦
      let e' : some entry ≡ some job = rw t at e in
      (
        (λ n. some-injective entry job e'),
        All-to_map (Fits id job) (λ row. row.1) queue
            (All-zip (λ row. key ≢ row.0) (λ row. row.1.id ≡ row.0)
              (λ row. row.1.id ≡ id → row.1 ≡ job) queue
              (λ row n m q. absurd (n (same ∙ sym q ∙ m))) v.apart.0 v.named.1),
      )
  | inr (t, away) ↦
      let e' : lookup id queue ≡ some job = rw t at e in
      (
        (λ n. absurd (away (sym v.named.0 ∙ n))),
        rows-Only queue id job (record { named = v.named.1; apart = v.apart.1 }) e',
      )
]

-- The loop's writes, read at one identifier.
pub lookup-write_all :
    (id : Text) (job : Job) (jobs : List Job) (queue : Queue)
    → Only id job jobs
    → lookup id (write_all jobs queue) ≡ (if names id jobs then some job else lookup id queue)
unfolding write_all
lookup-write_all id job [] queue h = refl
lookup-write_all id job (entry ∷ jobs) queue h = ground (
  arith,
  lookup-insert entry.id id entry queue,
  lookup-write_all id job jobs (insert entry.id entry queue) h.1,
)

pub insert-IsKeyed : (queue : Queue) (job : Job) → IsKeyed queue → IsKeyed (insert job.id job queue)
insert-IsKeyed queue job v = record {
  named = insert-All (λ row. row.1.id ≡ row.0) job.id job queue v.named refl;
  apart =
      insert-Pairwise (λ a b. a.0 ≢ b.0) job.id job queue (λ a b n. n) (λ a b n e. n (sym e))
        v.apart (All-pure (λ row. row.0 ≢ job.id → job.id ≢ row.0) queue (λ row n e. n (sym e)));
}

pub write_all-IsKeyed :
    (jobs : List Job) (queue : Queue) → IsKeyed queue → IsKeyed (write_all jobs queue)
unfolding write_all
write_all-IsKeyed [] queue v = v
write_all-IsKeyed (job ∷ jobs) queue v =
    write_all-IsKeyed jobs (insert job.id job queue) (insert-IsKeyed queue job v)

pub claim-IsKeyed :
    (queue : Queue) (request : ClaimRequest) → IsKeyed queue → IsKeyed (claim queue request).0
unfolding claim
claim-IsKeyed queue request v = elim (Option-cases (validate_claim request)) [
  | inr (err, e) ↦ rw (e, claim) v
  | inl e ↦ rw (e, claim) (write_all-IsKeyed (claimed_batch queue request) queue v)
]

-- The jobs that a claim takes, before the lease is written on them.
abbrev pub picked : Queue → ClaimRequest → List Job
picked queue request = first_jobs request.limit (sort due_first (claimable queue request))

pub picked-All :
    (P : Job → Type 0) (queue : Queue) (request : ClaimRequest)
    → All P (claimable queue request)
    → All P (picked queue request)
unfolding first_jobs
picked-All P queue request h =
    let jobs = sort due_first (claimable queue request) in
    let all = sort-All P due_first (claimable queue request) h in
    elim (Bool-cases (ltb_ℤ request.limit (pos (length jobs)))) [
      | inl e ↦ rw e (All-take P (pos_part request.limit) jobs all)
      | inr e ↦ rw e all
    ]

picked-Only :
    (queue : Queue) (request : ClaimRequest) (id : Text) (job : Job)
    → IsKeyed queue
    → lookup id queue ≡ some job
    → Only id job (picked queue request)
unfolding claimable
picked-Only queue request id job v e =
    picked-All (Fits id job) queue request
      (All-select (Fits id job) (is_claimable request) (jobs_of queue) (rows-Only queue id job v e))

pub picked-claimable :
    (queue : Queue) (request : ClaimRequest)
    → All (λ x. is_claimable request x ≡ true) (picked queue request)
unfolding claimable
picked-claimable queue request =
    picked-All (λ x. is_claimable request x ≡ true) queue request
      (All-select_test (λ x. is_claimable request x ≡ true) (is_claimable request) (jobs_of queue)
        (λ x e. e))

batch-Only :
    (queue : Queue) (request : ClaimRequest) (id : Text) (job : Job)
    → IsKeyed queue
    → lookup id queue ≡ some job
    → Only id (leased_of request job) (claimed_batch queue request)
unfolding claimed_batch leased_of
batch-Only queue request id job v e =
    All-to_map (Fits id (leased_of request job)) (leased_of request) (picked queue request) (
      All-map (Fits id job) (λ x. x.id ≡ id → leased_of request x ≡ leased_of request job)
        (picked queue request) (λ x f n. ap (leased_of request) (f n))
        (picked-Only queue request id job v e))

-- A job that may not be claimed is in no batch.
batch-skips :
    (queue : Queue) (request : ClaimRequest) (id : Text) (job : Job)
    → IsKeyed queue
    → lookup id queue ≡ some job
    → is_claimable request job ≡ false
    → names id (claimed_batch queue request) ≡ false
unfolding claimed_batch leased_of
batch-skips queue request id job v e c =
    All-any-false (λ x. text_eq x.id id) (claimed_batch queue request)
      (All-to_map (λ x. text_eq x.id id ≡ false) (leased_of request) (picked queue request)
        (All-zip (Fits id job) (λ x. is_claimable request x ≡ true) (λ x. text_eq x.id id ≡ false)
          (picked queue request)
          (λ x f t. elim (text_cases x.id id) [
            | inl (u, same) ↦ let one = f same in absurd cc
            | inr (u, away) ↦ u
          ])
          (picked-Only queue request id job v e) (picked-claimable queue request)))

-- A claim either leases the job with the identifier, which then could be claimed, or leaves it.
pub claim-lookup :
    (queue : Queue) (request : ClaimRequest) (id : Text) (job : Job)
    → IsKeyed queue
    → lookup id queue ≡ some job
    → (names id (claim queue request).1 ≡ true)
        × (is_claimable request job ≡ true)
        × (lookup id (claim queue request).0 ≡ some (leased_of request job))
      ⊎ (names id (claim queue request).1 ≡ false) × (lookup id (claim queue request).0 ≡ some job)
unfolding claim
claim-lookup queue request id job v e = elim (Option-cases (validate_claim request)) [
  | inr (err, k) ↦ rw (k, claim) (inr (refl, e))
  | inl k ↦
      rw (k, claim)
        (let read =
            lookup-write_all id (leased_of request job) (claimed_batch queue request) queue
              (batch-Only queue request id job v e) in
          elim (Bool-cases (names id (claimed_batch queue request))) [
            | inr n ↦ inr (n, read ∙ rw n e)
            | inl n ↦ elim (Bool-cases (is_claimable request job)) [
              | inl c ↦ inl (n, c, read ∙ rw n refl)
              | inr c ↦ absurd (let skipped = batch-skips queue request id job v e c in cc)
            ]
          ])
]

rows-absent :
    (queue : Queue) (id : Text)
    → IsKeyed queue
    → lookup id queue ≡ none
    → All (λ x. text_eq x.id id ≡ false) (jobs_of queue)
unfolding lookup
rows-absent [] id v e = tt
rows-absent ((key, entry) ∷ queue) id v e = elim (text_cases key id) [
  | inl (t, same) ↦ absurd (let e' : some entry ≡ none = rw t at e in cc)
  | inr (t, away) ↦
      let e' : lookup id queue ≡ none = rw t at e in
      (
        ap (λ name. text_eq name id) v.named.0 ∙ t,
        rows-absent queue id (record { named = v.named.1; apart = v.apart.1 }) e',
      )
]

batch-absent :
    (queue : Queue) (request : ClaimRequest) (id : Text)
    → IsKeyed queue
    → lookup id queue ≡ none
    → All (λ x. text_eq x.id id ≡ false) (claimed_batch queue request)
unfolding claimed_batch leased_of claimable
batch-absent queue request id v e =
    All-to_map (λ x. text_eq x.id id ≡ false) (leased_of request) (picked queue request)
      (picked-All (λ x. text_eq x.id id ≡ false) queue request
        (All-select (λ x. text_eq x.id id ≡ false) (is_claimable request) (jobs_of queue)
          (rows-absent queue id v e)))

-- A claim leases no job that is not there.
pub claim-absent :
    (queue : Queue) (request : ClaimRequest) (id : Text)
    → IsKeyed queue
    → lookup id queue ≡ none
    → (names id (claim queue request).1 ≡ false) × (lookup id (claim queue request).0 ≡ none)
unfolding claim
claim-absent queue request id v e = elim (Option-cases (validate_claim request)) [
  | inr (err, k) ↦ rw (k, claim) (refl, e)
  | inl k ↦
      rw (k, claim)
        (let absent = batch-absent queue request id v e in
          let unnamed = All-any-false (λ x. text_eq x.id id) (claimed_batch queue request) absent in
          let read = lookup-write_all id no_job (claimed_batch queue request) queue (
            All-map (λ x. text_eq x.id id ≡ false) (Fits id no_job) (claimed_batch queue request)
              (λ x f n. absurd (ne_of_text_eq x.id id f n)) absent) in
          (unnamed, read ∙ rw unnamed e))
]
