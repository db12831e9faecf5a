-- ===== src/Worker/Examples.antt =====
-- Runs of the handlers on concrete inputs.
use ottodot_trial_booking_se.Worker.Closing.{refund_job_done}
use ottodot_trial_booking_se.Payment.Service.{
  refund_booking, refund_key_for, refund_request, settled_attempt,
}
use ottodot_trial_booking_se.Payment.Provider.{refund}
use ottodot_trial_booking_se.Payment.Memory.{attempts_for}
use ottodot_trial_booking_se.Booking.Service.{cancel_booking, read_booking}
use ottodot_trial_booking_se.Booking.Memory.Writes.{cancel, move, record_event, withdrawn_of}
use ottodot_trial_booking_se.Booking.Memory.Reads.{get_booking}
use ottodot_trial_booking_se.Worker.Runner.Batch.{IsFree, dispatch_batch_frees}
use ottodot_trial_booking_se.Worker.Runner.{Handler, default_settings, dispatch_batch}
use ottodot_trial_booking_se.Queue.Model.{Job, Kind, reconcile_refund}
use ottodot_trial_booking_se.Queue.Memory.{Queue}
use ottodot_trial_booking_se.Worker.Refunds.{Try, refund_job_pays_once, retry}
use ottodot_trial_booking_se.Worker.Handlers.{close_refunded, send_back, handle_refund, System}
use ottodot_trial_booking_se.Payment.Model.{normalised, validate_amount, Attempt, succeeded}
use ottodot_trial_booking_se.Identifier.{mint_failed, minted}
use ottodot_trial_booking_se.Prelude.{
  Text-discrete, insert, lookup, ◌≡◌, All, Option, List, [], none, refl, some, suc, ◌∷◌, ◌≤◌, Text,
  codes, pos,
}
use ottodot_trial_booking_se.Booking.Status.{cancelled, can_transition, refund_required}
use ottodot_trial_booking_se.Booking.Model.{Booking}

abbrev child_booking : Text
child_booking = codes "booking-a"

abbrev lost_seat : Booking
lost_seat = record {
  id = child_booking;
  student_id = codes "student";
  class_id = codes "class";
  status = refund_required;
  seat_no = pos 0;
  hold_expires_at = 0;
  confirmed_at = 0;
  created_at = 1;
  updated_at = 9;
}

abbrev paid_attempt : Attempt
paid_attempt = record {
  id = codes "attempt-1";
  booking_id = child_booking;
  idempotency_key = codes "key-1";
  amount = record { cents = pos 1000; currency = codes "SGD" };
  status = succeeded;
  provider_ref = codes "mock_attempt-1";
  failure_reason = [];
  created_at = 5;
  settled_at = 6;
}

abbrev owed : System
owed = record {
  bookings = record {
    classes = [];
    parents = [];
    bookings = (child_booking, lost_seat) ∷ [];
    events = [];
    fault = none;
  };
  payments = record {
    repository = record {
      bookings = (child_booking, tt) ∷ [];
      attempts = (codes "attempt-1", paid_attempt) ∷ [];
      order = codes "attempt-1" ∷ [];
    };
    provider = record { forced = []; fault = none; charges = 1; refunds = 0; settled_refunds = [] };
  };
}

-- The close of the first run fails, and the job is run again.
abbrev two_tries : List Try
two_tries = (mint_failed (codes "no entropy"), 20, 21) ∷ (minted (codes "event-1"), 30, 31) ∷ []

refund_job_pays_once_example :
    (retry some owed child_booking two_tries).payments.provider.refunds
    ≤ suc owed.payments.provider.refunds
refund_job_pays_once_example =
    refund_job_pays_once some owed child_booking child_booking two_tries refl

abbrev refund_job : Job
refund_job = record {
  id = codes "job-1";
  kind = reconcile_refund;
  payload = child_booking;
  run_after = 10;
  attempts = pos 1;
  locked_until = 50;
  created_at = 10;
}

abbrev refund_jobs : Queue
refund_jobs = (codes "job-1", refund_job) ∷ []

-- Both kinds go to the handler of refunds.
abbrev refund_handlers : Kind → Option (Handler System)
refund_handlers kind =
    some (λ state job. handle_refund some state (minted (codes "event-1")) 30 31 job.payload)

dispatch_batch_frees_example :
    All
      (λ job.
        IsFree
          (dispatch_batch default_settings refund_handlers
            (λ job. 40)
            refund_jobs
            owed
            (refund_job ∷ [])).0
          job.id)
      (refund_job ∷ [])
unfolding default_settings
dispatch_batch_frees_example =
    dispatch_batch_frees default_settings refund_handlers (λ job. 40) refund_jobs owed
      (refund_job ∷ []) (record { named = (refl, tt); apart = (tt, tt) }) ((refl, refl), tt)

refund_job_done_example :
    ((refund_booking owed.payments 30 child_booking).2 ≡ none)
    × (lookup child_booking
          (handle_refund some owed
            (minted (codes "event-1"))
            30
            31
            child_booking).0.bookings.bookings
        ≡ some (record lost_seat {
          status = cancelled;
          seat_no = pos 0;
          hold_expires_at = 0;
          updated_at = 31;
        }))
unfolding lookup Text-discrete handle_refund send_back close_refunded read_booking get_booking
    cancel_booking cancel can_transition move record_event refund_booking refund settled_attempt
    attempts_for validate_amount normalised refund_request refund_key_for insert withdrawn_of
refund_job_done_example =
    refund_job_done some owed (minted (codes "event-1")) 30 31 child_booking child_booking lost_seat
      refl refl refl refl refl refl
