-- ===== src/Checkout/Jobs.antt =====
-- service.go: what a schedule without an error has written.
use ottodot_trial_booking_se.Queue.Model.{Error as QueueError}
use ottodot_trial_booking_se.Queue.Payload.{encode_booking_payload}
use ottodot_trial_booking_se.Queue.Model.{EnqueueRequest, Kind, validate_enqueue}
use ottodot_trial_booking_se.Prelude.{
  Bool, Option, Option-cases, Text, Time, inl, inr, lookup, lookup-insert_self, none, refl, some,
  ◌≡◌,
}
use ottodot_trial_booking_se.Identifier.{minted}
use ottodot_trial_booking_se.Checkout.Service.{enqueue_error, schedule, Settings, job_request}
use ottodot_trial_booking_se.Queue.Memory.{Queue, enqueue, written_of}

enqueue-writes :
    (is_object : Text → Bool) (queue : Queue) (request : EnqueueRequest)
    → (enqueue is_object queue request).2 ≡ none
    → lookup request.job_id (enqueue is_object queue request).0 ≡ some (written_of request)
unfolding enqueue
enqueue-writes is_object queue request = elim (Option-cases (validate_enqueue is_object request)) [
  | inr (err, v) ↦ rw (v, enqueue) (λ e. absurd cc)
  | inl v ↦
      rw (v, enqueue)
        (elim (Option-cases (lookup request.job_id queue)) [
          | inr (job, l) ↦ rw (l, enqueue) (λ e. absurd cc)
          | inl l ↦
              rw (l, enqueue) (λ e. lookup-insert_self request.job_id (written_of request) queue)
        ])
]

-- The job stands in the queue as it was asked for, with the encoded booking as its payload.
abbrev pub Scheduled : Settings → Text → Kind → Text → Time → Time → Queue → Type 0
Scheduled settings job_id kind booking_id run_after now queue =
    ((encode_booking_payload settings.marshal booking_id).1 ≡ none)
    × (lookup job_id queue
        ≡ some (
            written_of (
              job_request job_id kind (encode_booking_payload settings.marshal booking_id).0
                run_after now)))

pub schedule-Scheduled :
    (settings : Settings) (jobs : Queue) (job_id : Text) (kind : Kind) (booking_id : Text)
    (run_after now : Time)
    → (schedule settings jobs (minted job_id) kind booking_id run_after now).1 ≡ none
    → Scheduled settings job_id kind booking_id run_after now
        (schedule settings jobs (minted job_id) kind booking_id run_after now).0
unfolding schedule job_request
schedule-Scheduled settings jobs job_id kind booking_id run_after now =
    elim (Option-cases (encode_booking_payload settings.marshal booking_id).1) [
      | inr (err, p) ↦ rw (p, schedule) (λ e. absurd cc)
      | inl p ↦
          let request : EnqueueRequest =
            job_request job_id kind (encode_booking_payload settings.marshal booking_id).0 run_after
              now in
          rw (p, schedule)
            (λ e. (
              refl,
              enqueue-writes settings.is_object jobs request
                  (enqueued (enqueue settings.is_object jobs request).2 e),
            ))
    ]
  where
    enqueued : (err : Option QueueError) → enqueue_error err ≡ none → err ≡ none
    enqueued none e = refl
    enqueued (some err) e = absurd cc
