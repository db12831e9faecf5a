-- ===== src/Queue/Memory/Exclusive.antt =====
-- queue_memory.go: a job while its lease runs.
use ottodot_trial_booking_se.Queue.Model.{ClaimRequest, Job, is_claimed}
use ottodot_trial_booking_se.Queue.Memory.Schedule.{
  Call, batches, claims, complete-other, completes, enqueue-keeps, enqueues, release-other,
  releases, run, step, step-IsKeyed,
}
use ottodot_trial_booking_se.Queue.Memory.Leases.{
  IsKeyed, claim-IsKeyed, claim-absent, claim-lookup, names,
}
use ottodot_trial_booking_se.Queue.Memory.{Queue, claim, complete, enqueue, leased_of, release}
use ottodot_trial_booking_se.Prelude.{
  All, Bool, List, Option-cases, Text, Time, [], add_time, after, arith, false, inl, inr, lookup,
  some, true, ◌<◌, ◌∙◌, ◌∷◌, ◌≡◌, ◌≢◌,
}

-- A call, at an instant before the end of the lease if it is a claim, by someone other than the
-- holder: it neither completes nor releases the job.
abbrev pub IsForeign : Text → Time → Call → Type 0
IsForeign id until (enqueues request) = Unit {0}
IsForeign id until (claims request) = request.now < until
IsForeign id until (completes done) = done ≢ id
IsForeign id until (releases request) = request.job_id ≢ id

leased-skips :
    (queue : Queue) (request : ClaimRequest) (id : Text) (job : Job)
    → IsKeyed queue
    → lookup id queue ≡ some job
    → request.now < job.locked_until
    → (names id (claim queue request).1 ≡ false) × (lookup id (claim queue request).0 ≡ some job)
unfolding is_claimed
leased-skips queue request id job v e h = elim (claim-lookup queue request id job v e) [
  | inr kept ↦ kept
  | inl (n, c, after) ↦ absurd (ground arith)
]

-- What the holder relies on: while the lease runs the job is in no batch, and stands as it was.
held_alone :
    (is_object : Text → Bool) (queue : Queue) (calls : List Call) (id : Text) (job : Job)
    → IsKeyed queue
    → lookup id queue ≡ some job
    → All (IsForeign id job.locked_until) calls
    → All (λ batch. names id batch ≡ false) (batches is_object queue calls)
      × (lookup id (run is_object queue calls) ≡ some job)
unfolding run batches step
held_alone is_object queue [] id job v e h = (tt, e)
held_alone is_object queue (enqueues request ∷ calls) id job v e h =
    held_alone is_object (enqueue is_object queue request).0 calls id job
      (step-IsKeyed is_object queue (enqueues request) v)
      (enqueue-keeps is_object queue request id job e) h.1
held_alone is_object queue (claims request ∷ calls) id job v e h =
    let (skipped, still) = leased-skips queue request id job v e h.0 in
    let (rest, there) =
      held_alone is_object (claim queue request).0 calls id job (claim-IsKeyed queue request v)
        still h.1 in
    ((skipped, rest), there)
held_alone is_object queue (completes done ∷ calls) id job v e h =
    held_alone is_object (complete queue done).0 calls id job
      (step-IsKeyed is_object queue (completes done) v) (complete-other queue done id h.0 ∙ e) h.1
held_alone is_object queue (releases request ∷ calls) id job v e h =
    held_alone is_object (release queue request).0 calls id job
      (step-IsKeyed is_object queue (releases request) v) (release-other queue request id v h.0 ∙ e)
      h.1

-- Where a claim hands out a job, no later claim at an instant before the end of its lease hands it
-- out again, whatever is enqueued, claimed, completed and released in between by callers that
-- neither complete nor release that job. The condition: each job stands under its identifier, once.
pub lease_excludes :
    (is_object : Text → Bool) (queue : Queue) (request : ClaimRequest) (calls : List Call)
    (id : Text)
    → IsKeyed queue
    → names id (claim queue request).1 ≡ true
    → All (IsForeign id (add_time request.now request.lease)) calls
    → All (λ batch. names id batch ≡ false) (batches is_object (claim queue request).0 calls)
unfolding leased_of
lease_excludes is_object queue request calls id v n h = elim (Option-cases (lookup id queue)) [
  | inl e ↦ absurd (let absent = (claim-absent queue request id v e).0 in cc)
  | inr (job, e) ↦ elim (claim-lookup queue request id job v e) [
    | inr (skipped, there) ↦ absurd cc
    | inl (_, _, there) ↦
        (held_alone is_object (claim queue request).0 calls id (leased_of request job)
          (claim-IsKeyed queue request v) there h).0
  ]
]
