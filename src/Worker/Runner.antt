-- ===== src/Worker/Runner.antt =====
-- backend/internal/worker/runner.go: what becomes of a claimed job. The registry is a function from
-- the kind, the state that the handlers share is any type, and the instant at which the clock is
-- read to hand a job back is a function of the job. The counters and the reports change nothing.
use ottodot_trial_booking_se.Worker.Handlers.{HandlerError}
use ottodot_trial_booking_se.Queue.Model.{Job, Kind}
use ottodot_trial_booking_se.Queue.Memory.{Queue, claim, complete, release}
use ottodot_trial_booking_se.Prelude.{
  Bool, Duration, List, Option, Text, Time, [], add_time, after, codes, false, if◌then◌else◌,
  length, minutes, none, pos, seconds, some, ℕ, ℤ, ◌∷◌,
}
use ottodot_trial_booking_se.Queue.Model.{Error}
pub mod Batch

abbrev pub Handler : Type 0 → Type 0
Handler S = S → Job → S × Option HandlerError

-- The clock, the reports and the metrics are not fields.
pub record Settings : Type 0 where
  pub poll_interval : Duration
  pub lease : Duration
  pub batch_size : ℤ
  pub concurrency : ℤ
  pub max_attempts : ℤ
  pub retry_backoff : Duration
  pub fault : Option (Text → Bool)

unfoldable pub default_settings : Settings
default_settings = record {
  poll_interval = seconds 5;
  lease = minutes 2;
  batch_size = pos 10;
  concurrency = pos 1;
  max_attempts = pos 5;
  retry_backoff = seconds 30;
  fault = none;
}

abbrev pub job_error_point : Text
job_error_point = codes "queue.job_error"

unfoldable pub fault_fires : Option (Text → Bool) → Text → Bool
fault_fires none point = false
fault_fires (some fault) point = fault point

-- A release that is refused is reported, and the queue stands as it was.
unfoldable pub hand_back : Settings → Queue → Job → Time → Queue
hand_back settings queue job now =
    (release queue (record { job_id = job.id; run_after = add_time now settings.retry_backoff })).0

module _ {S : Type 0} (settings : Settings) (handlers : Kind → Option (Handler S))
    (clock : Job → Time) where
  unfoldable pub dispatch : Queue → S → Job → Queue × S
  dispatch queue state job = elim (handlers job.kind) [
    | none ↦ (hand_back settings queue job (clock job), state)
    | some handler ↦
        if fault_fires settings.fault job_error_point
        then (hand_back settings queue job (clock job), state)
        else let (after, err) = handler state job in
          elim err [
            | some cause ↦ (hand_back settings queue job (clock job), after)
            | none ↦ ((complete queue job.id).0, after)
          ]
  ]

  -- dispatchBatch with one slot: the jobs in their order.
  unfoldable pub dispatch_batch : Queue → S → List Job → Queue × S
  unfolding dispatch
  dispatch_batch queue state [] = (queue, state)
  dispatch_batch queue state (job ∷ jobs) =
      dispatch_batch (dispatch queue state job).0 (dispatch queue state job).1 jobs

  unfoldable pub run_once : Queue → S → Time → Queue × S × ℕ × Option Error
  run_once queue state now =
      let (leased_queue, leased, err) = claim queue (record {
        now = now;
        lease = settings.lease;
        limit = settings.batch_size;
        max_attempts = settings.max_attempts;
      }) in
      elim err [
        | some claim_err ↦ (leased_queue, state, 0, some claim_err)
        | none ↦
            let (done, after) = dispatch_batch leased_queue state leased in
            (done, after, length leased, none)
      ]
