-- ===== src/Queue/Examples.antt =====
-- Runs of the queue on concrete inputs.
use ottodot_trial_booking_se.Queue.Model.{
  ClaimRequest, EnqueueRequest, Job, ReleaseRequest, expire_hold, is_claimed, is_due, is_known_kind,
  is_parked, valid_payload, validate_claim, validate_enqueue,
}
use ottodot_trial_booking_se.Queue.Memory.Schedule.{batches, claims, completes, releases}
use ottodot_trial_booking_se.Queue.Memory.Leases.{IsKeyed, names}
use ottodot_trial_booking_se.Queue.Memory.Exclusive.{lease_excludes}
use ottodot_trial_booking_se.Queue.Memory.Batch.{
  is_free_and_due, IsLeased, batch_size, claim_hands_out,
}
use ottodot_trial_booking_se.Queue.Memory.Attempts.{attempts_bounded, times_handed}
use ottodot_trial_booking_se.Queue.Memory.{
  Queue, claim, claimable, claimed_batch, enqueue, first_jobs, jobs_of, leased_of,
}
use ottodot_trial_booking_se.Prelude.{
  All, Bool, Text, Text-discrete, Time, [], arith, codes, false, insert_by, length, lookup,
  ne_of_text_eq, none, pos, refl, sort, tally, true, ◌∷◌, ◌≡◌, ◌≤◌,
}

abbrev job_1 : Text
job_1 = codes "job-1"

abbrev any_object : Text → Bool
any_object payload = true

abbrev expiry : EnqueueRequest
expiry = record {
  job_id = job_1;
  kind = expire_hold;
  payload = codes "{}";
  run_after = 0;
  now = 10;
}

abbrev waiting : Job
waiting = record {
  id = job_1;
  kind = expire_hold;
  payload = codes "{}";
  run_after = 10;
  attempts = pos 0;
  locked_until = 0;
  created_at = 10;
}

abbrev one_job : Queue
one_job = (job_1, waiting) ∷ []

one_job-IsKeyed : IsKeyed one_job
one_job-IsKeyed = record { named = (refl, tt); apart = (tt, tt) }

abbrev poll_at : Time → ClaimRequest
poll_at now = record { now = now; lease = pos 30; limit = pos 5; max_attempts = pos 2 }

abbrev freed : ReleaseRequest
freed = record { job_id = job_1; run_after = 20 }

lease_excludes_example :
    All
      (λ batch. names job_1 batch ≡ false)
      (batches any_object
        (claim one_job (poll_at 20)).0
        (claims (poll_at 25) ∷ completes (codes "job-2") ∷ claims (poll_at 49) ∷ []))
unfolding lookup Text-discrete claim claimed_batch claimable sort insert_by first_jobs is_due
    is_claimed is_parked validate_claim leased_of
lease_excludes_example =
    lease_excludes any_object one_job (poll_at 20)
      (claims (poll_at 25) ∷ completes (codes "job-2") ∷ claims (poll_at 49) ∷ []) job_1
      one_job-IsKeyed refl
      (omega arith, ((λ e. absurd (ne_of_text_eq (codes "job-2") job_1 refl e)), (omega arith, tt)))

attempts_bounded_example :
    times_handed job_1 (
      batches any_object
        (enqueue any_object [] expiry).0
        (claims (poll_at 20) ∷ releases freed ∷ claims (poll_at 60) ∷ claims (poll_at 95) ∷ []))
    ≤ 2
unfolding enqueue validate_enqueue valid_payload is_known_kind lookup
attempts_bounded_example =
    attempts_bounded any_object [] expiry
      (claims (poll_at 20) ∷ releases freed ∷ claims (poll_at 60) ∷ claims (poll_at 95) ∷ []) 2
      (record { named = tt; apart = tt }) refl (omega arith) (refl, (tt, (refl, (refl, tt))))

claim_hands_out_example :
    ((claim one_job (poll_at 20)).2 ≡ none)
    × All (IsLeased one_job (poll_at 20)) (claim one_job (poll_at 20)).1
    × (length (claim one_job (poll_at 20)).1
        ≡ batch_size (pos 5) (tally (is_free_and_due (poll_at 20)) (jobs_of one_job)))
unfolding validate_claim
claim_hands_out_example = claim_hands_out one_job (poll_at 20) one_job-IsKeyed refl
