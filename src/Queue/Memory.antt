-- ===== src/Queue/Memory.antt =====
-- backend/internal/queue/queue_memory.go: the jobs under one mutex.
use ottodot_trial_booking_se.Queue.Model.{
  ClaimRequest, Depth, DepthRequest, EnqueueRequest, Error, Job, ReleaseRequest, err_duplicate_job,
  err_invalid_request, err_job_not_found, is_claimed, is_due, is_parked, next_int16, no_job,
  scheduled_at, validate_claim, validate_depth, validate_enqueue, validate_release,
}
use ottodot_trial_booking_se.Prelude.{
  Bool, List, Option, Text, [], add_time, before, delete, if◌then◌else◌, insert, is_empty, length,
  lookup, ltb_ℤ, map, none, not, pos, pos_part, select, some, sort, suc, take, text_ltb, ℤ, ◌&&◌,
  ◌==◌, ◌∷◌,
}
pub mod Leases
pub mod Batch
pub mod Schedule
pub mod Exclusive
pub mod Attempts

-- `MemoryQueue` is its one field, the map of jobs.
abbrev pub Queue : Type 0
Queue = List (Text × Job)

unfoldable pub written_of : EnqueueRequest → Job
written_of request = record {
  id = request.job_id;
  kind = request.kind;
  payload = request.payload;
  run_after = scheduled_at request;
  attempts = pos 0;
  locked_until = 0;
  created_at = request.now;
}

unfoldable pub enqueue : (Text → Bool) → Queue → EnqueueRequest → Queue × Job × Option Error
enqueue is_object queue request = elim (validate_enqueue is_object request) [
  | some err ↦ (queue, no_job, some err)
  | none ↦ elim (lookup request.job_id queue) [
    | some taken ↦ (queue, no_job, some err_duplicate_job)
    | none ↦ (insert request.job_id (written_of request) queue, written_of request, none)
  ]
]

-- The three conditions of claimableLocked.
abbrev pub is_claimable : ClaimRequest → Job → Bool
is_claimable request job =
    is_due job request.now
    && not (is_claimed job request.now)
    && not (is_parked job request.max_attempts)

abbrev pub jobs_of : Queue → List Job
jobs_of queue = map (λ row. row.1) queue

unfoldable pub claimable : Queue → ClaimRequest → List Job
claimable queue request = select (is_claimable request) (jobs_of queue)

-- The comparison of Claim.
abbrev pub due_first : Job → Job → Bool
due_first first second =
    if not (first.run_after == second.run_after)
    then before first.run_after second.run_after
    else text_ltb first.id second.id

-- The cut of Claim.
unfoldable pub first_jobs : ℤ → List Job → List Job
first_jobs limit jobs = if ltb_ℤ limit (pos (length jobs)) then take (pos_part limit) jobs else jobs

unfoldable pub leased_of : ClaimRequest → Job → Job
leased_of request job = record job {
  attempts = next_int16 job.attempts;
  locked_until = add_time request.now request.lease;
}

-- The writes of Claim's loop.
unfoldable pub write_all : List Job → Queue → Queue
write_all [] queue = queue
write_all (job ∷ jobs) queue = write_all jobs (insert job.id job queue)

unfoldable pub claimed_batch : Queue → ClaimRequest → List Job
claimed_batch queue request =
    map (leased_of request) (first_jobs request.limit (sort due_first (claimable queue request)))

unfoldable pub claim : Queue → ClaimRequest → Queue × List Job × Option Error
claim queue request = elim (validate_claim request) [
  | some err ↦ (queue, [], some err)
  | none ↦ let leased = claimed_batch queue request in (write_all leased queue, leased, none)
]

unfoldable pub complete : Queue → Text → Queue × Option Error
complete queue job_id =
    if is_empty job_id then (queue, some err_invalid_request) else elim (lookup job_id queue) [
      | none ↦ (queue, some err_job_not_found)
      | some held ↦ (delete job_id queue, none)
    ]

unfoldable pub released_of : Job → ReleaseRequest → Job
released_of held request = record held { locked_until = 0; run_after = request.run_after }

unfoldable pub release : Queue → ReleaseRequest → Queue × Option Error
release queue request = elim (validate_release request) [
  | some err ↦ (queue, some err)
  | none ↦ elim (lookup request.job_id queue) [
    | none ↦ (queue, some err_job_not_found)
    | some held ↦ (insert held.id (released_of held request) queue, none)
  ]
]

unfoldable pub get_job : Queue → Text → Job × Option Error
get_job queue job_id =
    if is_empty job_id then (no_job, some err_invalid_request) else elim (lookup job_id queue) [
      | none ↦ (no_job, some err_job_not_found)
      | some held ↦ (held, none)
    ]

-- The `switch` of Depth, and its loop.
abbrev counted : DepthRequest → Job → Depth → Depth
counted request job depth =
    if is_parked job request.max_attempts
    then record depth { parked = suc depth.parked }
    else if is_claimed job request.now
    then record depth { claimed = suc depth.claimed }
    else if is_due job request.now
    then record depth { ready = suc depth.ready }
    else depth

unfoldable pub count_jobs : DepthRequest → List Job → Depth → Depth
count_jobs request [] depth = depth
count_jobs request (job ∷ jobs) depth = count_jobs request jobs (counted request job depth)

abbrev pub no_depth : Depth
no_depth = record { ready = 0; claimed = 0; parked = 0 }

unfoldable pub depth_of : Queue → DepthRequest → Depth × Option Error
depth_of queue request = elim (validate_depth request) [
  | some err ↦ (no_depth, some err)
  | none ↦ (count_jobs request (jobs_of queue) no_depth, none)
]
