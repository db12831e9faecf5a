-- ===== src/Queue/Memory/Batch.antt =====
-- queue_memory.go: the batch that a claim hands out.
use ottodot_trial_booking_se.Queue.Model.{
  ClaimRequest, Job, is_claimed, is_due, is_parked, next_int16, validate_claim,
}
use ottodot_trial_booking_se.Queue.Memory.Leases.{IsKeyed, picked, picked-All, picked-claimable}
use ottodot_trial_booking_se.Queue.Memory.{
  due_first, Queue, claim, claimable, claimed_batch, first_jobs, is_claimable, jobs_of, leased_of,
}
use ottodot_trial_booking_se.Prelude.{
  Bool, leb, ◌&&◌, ◌<ℤ◌, Bool-cases, length-map, length-select, length-sort, sort, All, All-select,
  All-to_map, All-zip, List, Pairwise, [], add_time, ap, arith, if◌then◌else◌, inl, inr, length,
  lookup, ltb_ℤ, none, pos, pos_part, refl, some, suc, take, tally, text_cases, text_eq_refl, true,
  zero, ℕ, ℤ, ◌∙◌, ◌∷◌, ◌≡◌, ◌≢◌, ◌≤◌,
}

length-take : (n : ℕ) (jobs : List Job) → n ≤ length jobs → length (take n jobs) ≡ n
length-take zero jobs h = refl
length-take (suc n) [] h = absurd (omega arith)
length-take (suc n) (job ∷ jobs) h = ap suc (length-take n jobs (omega arith))

-- Every row is what a lookup of its key finds.
rows-found :
    (queue : Queue)
    → Pairwise (λ a b. a.0 ≢ b.0) queue
    → All (λ row. lookup row.0 queue ≡ some row.1) queue
unfolding lookup
rows-found [] h = tt
rows-found ((key, entry) ∷ queue) h = (
  rw (text_eq_refl key) refl,
  All-zip (λ row. key ≢ row.0) (λ row. lookup row.0 queue ≡ some row.1)
      (λ row. lookup row.0 ((key, entry) ∷ queue) ≡ some row.1) queue
      (λ row n e. elim (text_cases key row.0) [
        | inl (t, same) ↦ absurd (n same)
        | inr (t, away) ↦ rw t e
      ])
      h.0 (rows-found queue h.1),
)

-- A job of a batch: it stood in the queue, due, held by nobody and not parked, and carries one more
-- attempt and the end of the lease.
abbrev pub IsLeased : Queue → ClaimRequest → Job → Type 0
IsLeased queue request leased =
    (held : Job) × (lookup held.id queue ≡ some held)
    × (held.run_after ≤ request.now)
    × (held.locked_until ≤ request.now)
    × (held.attempts <ℤ request.max_attempts)
    × (leased.attempts ≡ next_int16 held.attempts)
    × (leased.locked_until ≡ add_time request.now request.lease)
    × (leased.id ≡ held.id)

jobs-found :
    (queue : Queue) → IsKeyed queue → All (λ job. lookup job.id queue ≡ some job) (jobs_of queue)
jobs-found queue v =
    All-to_map (λ job. lookup job.id queue ≡ some job) (λ row. row.1) queue
      (All-zip (λ row. row.1.id ≡ row.0) (λ row. lookup row.0 queue ≡ some row.1)
        (λ row. lookup row.1.id queue ≡ some row.1) queue
        (λ row n e. ap (λ key. lookup key queue) n ∙ e) v.named (rows-found queue v.apart))

-- A job that may be handed out: its time has come, the lock on it is over, if there was one (the zero
-- instant is none), and it has attempts left.
abbrev pub is_free_and_due : ClaimRequest → Job → Bool
is_free_and_due request job =
    leb job.run_after request.now
    && (leb job.locked_until request.now && ltb_ℤ job.attempts request.max_attempts)

claimable-free_and_due :
    (request : ClaimRequest) (job : Job) → is_claimable request job ≡ is_free_and_due request job
unfolding is_due is_claimed is_parked
claimable-free_and_due request job = ground arith

tally-free_and_due :
    (request : ClaimRequest) (jobs : List Job)
    → tally (is_claimable request) jobs ≡ tally (is_free_and_due request) jobs
tally-free_and_due request [] = refl
tally-free_and_due request (job ∷ jobs) =
    rw (claimable-free_and_due request job) (rw (tally-free_and_due request jobs) refl)

batch-IsLeased :
    (queue : Queue) (request : ClaimRequest)
    → IsKeyed queue
    → All (IsLeased queue request) (claimed_batch queue request)
unfolding claimed_batch leased_of claimable is_due is_claimed is_parked
batch-IsLeased queue request v =
    All-to_map (IsLeased queue request) (leased_of request) (picked queue request) (
      All-zip (λ x. lookup x.id queue ≡ some x) (λ x. is_claimable request x ≡ true)
        (λ x. IsLeased queue request (leased_of request x)) (picked queue request)
        (λ x e c. (x, e, ground arith, ground arith, ground arith, refl, refl, refl))
        (picked-All (λ x. lookup x.id queue ≡ some x) queue request
          (All-select (λ x. lookup x.id queue ≡ some x) (is_claimable request) (jobs_of queue)
            (jobs-found queue v)))
        (picked-claimable queue request))

-- As many jobs as may be claimed, up to the limit.
abbrev pub batch_size : ℤ → ℕ → ℕ
batch_size limit waiting = if ltb_ℤ limit (pos waiting) then pos_part limit else waiting

length-first_jobs :
    (limit : ℤ) (jobs : List Job) → length (first_jobs limit jobs) ≡ batch_size limit (length jobs)
unfolding first_jobs
length-first_jobs limit jobs = elim (Bool-cases (ltb_ℤ limit (pos (length jobs)))) [
  | inl e ↦ rw e (length-take (pos_part limit) jobs (ground arith))
  | inr e ↦ rw e refl
]

batch-length :
    (queue : Queue) (request : ClaimRequest)
    → length (claimed_batch queue request)
      ≡ batch_size request.limit (tally (is_free_and_due request) (jobs_of queue))
unfolding claimed_batch claimable
batch-length queue request =
    length-map (leased_of request) (picked queue request)
    ∙ length-first_jobs request.limit (sort due_first (claimable queue request))
    ∙ ap (batch_size request.limit) (
        length-sort due_first (claimable queue request)
        ∙ length-select (is_claimable request) (jobs_of queue)
        ∙ tally-free_and_due request (jobs_of queue))

-- A claim that is not refused hands out only jobs that stood in the queue with a time that has come, a
-- lock that is over and attempts left, each with one more attempt and locked until the end of the
-- lease; it hands out as many as there are such jobs, up to the limit. The
-- condition: each job stands under its identifier, once.
pub claim_hands_out :
    (queue : Queue) (request : ClaimRequest)
    → IsKeyed queue
    → validate_claim request ≡ none
    → ((claim queue request).2 ≡ none)
      × All (IsLeased queue request) (claim queue request).1
      × (length (claim queue request).1
          ≡ batch_size request.limit (tally (is_free_and_due request) (jobs_of queue)))
unfolding claim
claim_hands_out queue request v k =
    rw (k, claim) (refl, batch-IsLeased queue request v, batch-length queue request)
