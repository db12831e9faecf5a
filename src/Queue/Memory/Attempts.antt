-- ===== src/Queue/Memory/Attempts.antt =====
-- queue_memory.go: how often a job is handed out.
use ottodot_trial_booking_se.Queue.Model.{
  validate_enqueue, ClaimRequest, EnqueueRequest, is_parked, next_int16, Job,
}
use ottodot_trial_booking_se.Queue.Memory.Schedule.{
  enqueue-keeps, release-attempts, complete-outcome, release-absent, Call, batches, claims,
  completes, enqueue-other, enqueues, releases, step, step-IsKeyed,
}
use ottodot_trial_booking_se.Queue.Memory.Leases.{
  claim-lookup, IsKeyed, claim-IsKeyed, claim-absent, names,
}
use ottodot_trial_booking_se.Queue.Memory.{
  is_claimable, leased_of, written_of, Queue, claim, complete, enqueue, release,
}
use ottodot_trial_booking_se.Prelude.{
  neg_part, pos_part, Option-cases, lookup-insert_self, after, ap, arith, false, leb_ℤ, some, suc,
  true, ◌+◌, ◌<◌, ◌≤◌, inl, inr, All, Bool, List, Text, [], lookup, none, pos, refl, tally, ℕ, ◌∙◌,
  ◌∷◌, ◌≡◌, ◌≢◌,
}

-- Every claim parks a job at the same number of attempts, and the job is enqueued once.
abbrev pub IsPolled : Text → ℕ → Call → Type 0
IsPolled id most (enqueues request) = request.job_id ≢ id
IsPolled id most (claims request) = request.max_attempts ≡ pos most
IsPolled id most (completes done) = Unit {0}
IsPolled id most (releases request) = Unit {0}

-- How often a schedule hands the job out.
abbrev pub times_handed : Text → List (List Job) → ℕ
times_handed id batches = tally (names id) batches

absent-handed :
    (is_object : Text → Bool) (queue : Queue) (calls : List Call) (id : Text) (most : ℕ)
    → IsKeyed queue
    → lookup id queue ≡ none
    → All (IsPolled id most) calls
    → times_handed id (batches is_object queue calls) ≡ 0
unfolding batches step
absent-handed is_object queue [] id most v e h = refl
absent-handed is_object queue (enqueues request ∷ calls) id most v e h =
    absent-handed is_object (enqueue is_object queue request).0 calls id most
      (step-IsKeyed is_object queue (enqueues request) v)
      (enqueue-other is_object queue request id h.0 ∙ e) h.1
absent-handed is_object queue (claims request ∷ calls) id most v e h =
    let (unnamed, still) = claim-absent queue request id v e in
    rw unnamed (
      absent-handed is_object (claim queue request).0 calls id most (claim-IsKeyed queue request v)
        still h.1)
absent-handed is_object queue (completes done ∷ calls) id most v e h =
    absent-handed is_object (complete queue done).0 calls id most
      (step-IsKeyed is_object queue (completes done) v)
      (elim (complete-outcome queue done id v) [ inl gone ↦ gone | inr same ↦ same ∙ e ]) h.1
absent-handed is_object queue (releases request ∷ calls) id most v e h =
    absent-handed is_object (release queue request).0 calls id most
      (step-IsKeyed is_object queue (releases request) v) (release-absent queue request id v e) h.1

next_int16_small : (n : ℕ) → n < 32767 → next_int16 (pos n) ≡ pos (suc n)
unfolding next_int16
next_int16_small n h = ground arith

leased-attempts :
    (request : ClaimRequest) (job : Job) (spent : ℕ)
    → spent < 32767
    → job.attempts ≡ pos spent
    → (leased_of request job).attempts ≡ pos (suc spent)
unfolding leased_of
leased-attempts request job spent small a = ap next_int16 a ∙ next_int16_small spent small

unparked-lt :
    (request : ClaimRequest) (job : Job) (spent most : ℕ)
    → request.max_attempts ≡ pos most
    → job.attempts ≡ pos spent
    → is_claimable request job ≡ true
    → spent < most
unfolding is_parked
unparked-lt request job spent most m a c =
    let unparked : leb_ℤ request.max_attempts job.attempts ≡ false = ground arith in
    let parts : (pos_part request.max_attempts ≡ most) × (neg_part request.max_attempts ≡ 0) =
      (ap pos_part m, ap neg_part m) in
    let own : (pos_part job.attempts ≡ spent) × (neg_part job.attempts ≡ 0) =
      (ap pos_part a, ap neg_part a) in
    ground arith

-- A job that has spent some attempts is handed out at most for what is left of them.
handed-le :
    (is_object : Text → Bool) (queue : Queue) (calls : List Call) (id : Text) (most spent : ℕ)
    (job : Job)
    → IsKeyed queue
    → most ≤ 32767
    → lookup id queue ≡ some job
    → job.attempts ≡ pos spent
    → spent ≤ most
    → All (IsPolled id most) calls
    → times_handed id (batches is_object queue calls) + spent ≤ most
unfolding batches step
handed-le is_object queue [] id most spent job v small e a le h = omega arith
handed-le is_object queue (enqueues request ∷ calls) id most spent job v small e a le h =
    handed-le is_object (enqueue is_object queue request).0 calls id most spent job
      (step-IsKeyed is_object queue (enqueues request) v) small
      (enqueue-keeps is_object queue request id job e) a le h.1
handed-le is_object queue (claims request ∷ calls) id most spent job v small e a le h =
    elim (claim-lookup queue request id job v e) [
      | inr (unnamed, still) ↦ rw unnamed (
          handed-le is_object (claim queue request).0 calls id most spent job
            (claim-IsKeyed queue request v) small still a le h.1)
      | inl (named, c, leased) ↦
          let room : spent < most = unparked-lt request job spent most h.0 a c in
          let bound =
            handed-le is_object (claim queue request).0 calls id most (suc spent)
              (leased_of request job) (claim-IsKeyed queue request v) small leased
              (leased-attempts request job spent (omega arith) a) (omega arith) h.1 in
          rw named (omega arith)
    ]
handed-le is_object queue (completes done ∷ calls) id most spent job v small e a le h =
    let v' = step-IsKeyed is_object queue (completes done) v in
    elim (complete-outcome queue done id v) [
      | inl gone ↦
          rw (absent-handed is_object (complete queue done).0 calls id most v' gone h.1)
            (omega arith)
      | inr same ↦
          handed-le is_object (complete queue done).0 calls id most spent job v' small (same ∙ e) a
            le h.1
    ]
handed-le is_object queue (releases request ∷ calls) id most spent job v small e a le h =
    let (after, found, kept) = release-attempts queue request id job v e in
    handed-le is_object (release queue request).0 calls id most spent after
      (step-IsKeyed is_object queue (releases request) v) small found (kept ∙ a) le h.1

enqueue-writes :
    (is_object : Text → Bool) (queue : Queue) (request : EnqueueRequest)
    → (enqueue is_object queue request).2 ≡ none
    → lookup request.job_id (enqueue is_object queue request).0 ≡ some (written_of request)
unfolding enqueue
enqueue-writes is_object queue request = elim (Option-cases (validate_enqueue is_object request)) [
  | inr (err, k) ↦ rw (k, enqueue) (λ ok. cc)
  | inl k ↦
      rw (k, enqueue)
        (elim (Option-cases (lookup request.job_id queue)) [
          | inr (found, e) ↦ rw (e, enqueue) (λ ok. cc)
          | inl e ↦
              rw (e, enqueue) (λ ok. lookup-insert_self request.job_id (written_of request) queue)
        ])
]

-- After a job is enqueued, no schedule of calls by any producers and workers hands it out more often
-- than the number of attempts at which the claims park a job, where every claim has the same number,
-- it fits an int16, and the identifier is enqueued once. The condition on the queue: each job stands
-- under its identifier, once.
pub attempts_bounded :
    (is_object : Text → Bool) (queue : Queue) (request : EnqueueRequest) (calls : List Call)
    (most : ℕ)
    → IsKeyed queue
    → (enqueue is_object queue request).2 ≡ none
    → most ≤ 32767
    → All (IsPolled request.job_id most) calls
    → times_handed request.job_id (batches is_object (enqueue is_object queue request).0 calls)
      ≤ most
unfolding step written_of
attempts_bounded is_object queue request calls most v ok small h =
    let bound =
      handed-le is_object (enqueue is_object queue request).0 calls request.job_id most 0
        (written_of request) (step-IsKeyed is_object queue (enqueues request) v) small
        (enqueue-writes is_object queue request ok) refl (omega arith) h in
    omega arith
