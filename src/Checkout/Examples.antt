-- ===== src/Checkout/Examples.antt =====
-- Runs of a checkout on concrete inputs.
use ottodot_trial_booking_se.Checkout.Lapsed.{unpaid_hold_lapses}
use ottodot_trial_booking_se.Worker.Handlers.{handle_expiry, handle_refund}
use ottodot_trial_booking_se.Booking.Errors.{triggered}
use ottodot_trial_booking_se.Booking.Memory.Reads.{
  has_live_booking, holders, live_holds_for_parent, seats_taken, sits_in,
}
use ottodot_trial_booking_se.Booking.Memory.Writes.{
  grant, granted_of, hold, confirm, lost_of, move, record_event, settle_seat, won_of,
}
use ottodot_trial_booking_se.Booking.Seat.{lowest_free_seat, scan_seats}
use ottodot_trial_booking_se.Booking.Service.{
  HoldCommand, Policy, hold_booking, hold_request, confirm_booking,
}
use ottodot_trial_booking_se.Checkout.Service.{
  HoldReads, hold_place, schedule_expiry, decide_seat, job_request, queue_refund, schedule,
  after_payment, payment_command,
}
use ottodot_trial_booking_se.Payment.Memory.{
  settle, settled_of, begin, by_key, walk_keys, opened_of,
}
use ottodot_trial_booking_se.Payment.Model.{
  is_settled, validate_settle, validate_amount, normalised, validate_idempotency_key,
}
use ottodot_trial_booking_se.Payment.Provider.{
  decide_outcome, fault_triggered, outcome_of, answer, charge,
}
use ottodot_trial_booking_se.Payment.Service.{
  refund_booking, settle_succeeded, begin_request, charge_opened, charge_request,
}
use ottodot_trial_booking_se.Prelude.{
  IsAscii, add_time, ◌+ℤ◌, insert, to_int16, insert_by, sort, lookup, Text-discrete,
}
use ottodot_trial_booking_se.Queue.Memory.{enqueue, written_of}
use ottodot_trial_booking_se.Queue.Model.{
  expire_hold, Job, reconcile_refund, is_known_kind, scheduled_at, valid_payload, validate_enqueue,
}
use ottodot_trial_booking_se.Queue.Payload.{decoded, encode_booking_payload}
use ottodot_trial_booking_se.Checkout.Price.{accept_amount, accept_normalised}
use ottodot_trial_booking_se.Booking.Model.{hold_deadline, max_holders, has_seat}
use ottodot_trial_booking_se.Payment.Service.{pay as pay_payments}
use ottodot_trial_booking_se.Prelude.{
  Bool, List, Option, Text, Text-discrete, [], arith, codes, false, lookup, ne_of_text_eq, none,
  pos, refl, some, some-injective, subst, true, ◌↔◌, ◌∷◌, ◌≡◌,
}
use ottodot_trial_booking_se.Identifier.{minted}
use ottodot_trial_booking_se.Booking.Memory.Invariant.{IsSound, both_live, share_seat}
use ottodot_trial_booking_se.Checkout.Price.{
  accept_amount, accept_normalised, trial_price, accept_amount-price,
}
use ottodot_trial_booking_se.Checkout.Service.{
  Settings, Checkout, PayReads, PayCommand, pay, queue_refund, decide_seat, after_payment, schedule,
  job_request, payment_command,
}
use ottodot_trial_booking_se.Checkout.Paid.{IsPaidSeat, confirmed_was_paid, payment_error-unchanged}
use ottodot_trial_booking_se.Checkout.Refunded.{behind, lost_seat_is_repaid}
use ottodot_trial_booking_se.Booking.Model.{has_seat, Class, Booking, no_class, no_booking}
use ottodot_trial_booking_se.Booking.Memory.Reads.{Repository}
use ottodot_trial_booking_se.Payment.Model.{normalised, Amount, err_invalid_amount}
use ottodot_trial_booking_se.Booking.Status.{
  cancelled, expired, is_live, pending_payment, confirmed,
}
use ottodot_trial_booking_se.Payment.Service.{Payments}

abbrev trial : Class
trial = record no_class { id = codes "c"; capacity = pos 1; hold_allowance = pos 1 }

abbrev holding : Booking
holding = record no_booking {
  id = codes "a";
  student_id = codes "s";
  class_id = codes "c";
  status = pending_payment;
  hold_expires_at = 100;
  created_at = 10;
  updated_at = 10;
}

abbrev seated_row : Booking
seated_row = record no_booking {
  id = codes "b";
  student_id = codes "t";
  class_id = codes "c";
  status = confirmed;
  seat_no = pos 1;
  confirmed_at = 20;
  created_at = 10;
  updated_at = 20;
}

abbrev rows_of : List (Text × Booking) → Repository
rows_of rows = record {
  classes = (codes "c", trial) ∷ [];
  parents = (codes "s", codes "p") ∷ (codes "t", codes "q") ∷ [];
  bookings = rows;
  events = [];
  fault = none;
}

abbrev purse : Payments
purse = record {
  repository = record { bookings = (codes "a", tt) ∷ []; attempts = []; order = [] };
  provider = record { forced = []; fault = none; charges = 0; refunds = 0; settled_refunds = [] };
}

abbrev one_seat_left : Checkout
one_seat_left = record {
  bookings = rows_of ((codes "a", holding) ∷ []);
  payments = purse;
  jobs = [];
}

abbrev sold_out : Checkout
sold_out = record {
  bookings = rows_of ((codes "a", holding) ∷ (codes "b", seated_row) ∷ []);
  payments = purse;
  jobs = [];
}

abbrev brace : Settings
brace = record {
  expiry_grace = pos 30;
  marshal = λ id. some (b'{' ∷ id);
  is_object = λ payload. true;
}

abbrev unbrace : Text → Option Text
unbrace [] = none
unbrace (c ∷ id) = some id

unbrace-brace :
    (id payload : Text) → IsAscii id → brace.marshal id ≡ some payload → unbrace payload ≡ some id
unbrace-brace id payload plain e =
    subst (λ p. unbrace p ≡ some id) (some-injective _ payload e) refl

abbrev reading : PayReads
reading = record {
  attempt_mint = minted (codes "1");
  begun_at = 50;
  settled_at = 51;
  event_mint = minted (codes "2");
  decided_at = 52;
  job_mint = minted (codes "3");
  run_at = 53;
  enqueued_at = 54;
}

abbrev offer : Amount → PayCommand
offer amount = record {
  booking_id = codes "a";
  amount = amount;
  idempotency_key = codes "key";
  development = false;
}

abbrev price : Amount
price = record { cents = pos 4500; currency = [] }

accept_amount-price_example : (accept_amount price false ≡ none) ↔ (normalised price ≡ trial_price)
accept_amount-price_example = accept_amount-price price

one_seat_left-IsSound : IsSound one_seat_left.bookings
unfolding lookup Text-discrete
one_seat_left-IsSound = record {
  capacities = (omega arith, tt);
  rows = ((refl, refl), tt);
  apart = (tt, tt);
}

sold_out-IsSound : IsSound sold_out.bookings
unfolding lookup Text-discrete share_seat both_live has_seat is_live
sold_out-IsSound = record {
  capacities = (omega arith, tt);
  rows = ((refl, refl), ((refl, (omega arith, omega arith)), tt));
  apart = (((ne_of_text_eq _ _ refl, refl, refl), tt), (tt, tt));
}

confirmed_was_paid_example :
    IsPaidSeat (offer price) (pay brace one_seat_left reading (offer price))
    × (◌≡◌ {A = Bool} false false → normalised price ≡ trial_price)
unfolding triggered seats_taken sits_in confirm lost_of move record_event settle_seat won_of
    lowest_free_seat scan_seats confirm_booking decide_seat job_request queue_refund schedule
    after_payment payment_command settle settled_of begin by_key walk_keys opened_of is_settled
    validate_settle validate_amount normalised validate_idempotency_key decide_outcome
    fault_triggered outcome_of answer charge settle_succeeded begin_request charge_opened
    charge_request insert to_int16 insert_by sort lookup Text-discrete enqueue written_of
    is_known_kind scheduled_at valid_payload validate_enqueue encode_booking_payload accept_amount
    accept_normalised has_seat pay pay_payments
confirmed_was_paid_example =
    confirmed_was_paid brace one_seat_left reading (offer price) one_seat_left-IsSound refl

payment_error-unchanged_example :
    ((pay brace sold_out reading (offer (record { cents = pos 4400; currency = [] }))).0.bookings
      ≡ sold_out.bookings)
    × ((pay brace sold_out reading (offer (record { cents = pos 4400; currency = [] }))).0.jobs
        ≡ sold_out.jobs)
unfolding triggered seats_taken sits_in confirm lost_of move record_event settle_seat won_of
    lowest_free_seat scan_seats confirm_booking decide_seat job_request queue_refund schedule
    after_payment payment_command settle settled_of begin by_key walk_keys opened_of is_settled
    validate_settle validate_amount normalised validate_idempotency_key decide_outcome
    fault_triggered outcome_of answer charge settle_succeeded begin_request charge_opened
    charge_request insert to_int16 insert_by sort lookup Text-discrete enqueue written_of
    is_known_kind scheduled_at valid_payload validate_enqueue encode_booking_payload accept_amount
    accept_normalised has_seat pay pay_payments
payment_error-unchanged_example =
    payment_error-unchanged brace sold_out reading
      (offer (record { cents = pos 4400; currency = [] })) err_invalid_amount refl (λ e. cc)

lost_seat_is_repaid_example :
    let after = pay brace sold_out reading (offer price) in
    (job : Job) × (lookup (codes "3") after.0.jobs ≡ some job)
    × (job.kind ≡ reconcile_refund)
    × ((handle_refund (decoded unbrace) (behind after.0) (minted (codes "4")) 60 61 job.payload).1
        ≡ none)
    × ((refund_booking (behind after.0).payments 60 (codes "a")).2 ≡ none)
    × (lookup
          (codes "a")
          (handle_refund
            (decoded unbrace)
            (behind after.0)
            (minted (codes "4"))
            60
            61
            job.payload).0.bookings.bookings
        ≡ some (record (after.1.booking) {
          status = cancelled;
          seat_no = pos 0;
          hold_expires_at = 0;
          updated_at = 61;
        }))
unfolding triggered seats_taken sits_in confirm lost_of move record_event settle_seat won_of
    lowest_free_seat scan_seats confirm_booking decide_seat job_request queue_refund schedule
    after_payment payment_command settle settled_of begin by_key walk_keys opened_of is_settled
    validate_settle validate_amount normalised validate_idempotency_key decide_outcome
    fault_triggered outcome_of answer charge settle_succeeded begin_request charge_opened
    charge_request insert to_int16 insert_by sort lookup Text-discrete enqueue written_of
    is_known_kind scheduled_at valid_payload validate_enqueue encode_booking_payload accept_amount
    accept_normalised has_seat pay pay_payments
lost_seat_is_repaid_example =
    lost_seat_is_repaid brace sold_out reading (offer price) (codes "1") (codes "3") (codes "4")
      unbrace 60 61
      (record {
        sound = sold_out-IsSound;
        kept = record { keyed = tt; rows = tt };
        funded = tt;
        minting = refl;
        fresh = refl;
        named = refl;
        job_minting = refl;
      })
      unbrace-brace (omega arith, tt) refl refl refl

abbrev open_class : Checkout
open_class = record { bookings = rows_of []; payments = purse; jobs = [] }

abbrev one_hold_each : Policy
one_hold_each = record { hold_ttl = pos 600; max_holds_per_parent = pos 1 }

abbrev hold_reading : HoldReads
hold_reading = record {
  booking_mint = minted (codes "a");
  held_at = 10;
  event_mint = minted (codes "1");
  job_mint = minted (codes "2");
  enqueued_at = 11;
}

abbrev ask : HoldCommand
ask = record { student_id = codes "s"; class_id = codes "c" }

unpaid_hold_lapses_example :
    let answer = hold_place brace one_hold_each open_class hold_reading ask in
    (job : Job) × (lookup (codes "2") answer.0.jobs ≡ some job)
    × (job.kind ≡ expire_hold)
    × (job.run_after ≡ add_time answer.1.booking.hold_expires_at brace.expiry_grace)
    × ((handle_expiry (decoded unbrace) (behind answer.0) (minted (codes "3")) 640 job.payload).1
        ≡ none)
    × (lookup answer.1.booking.id
          (handle_expiry
            (decoded unbrace)
            (behind answer.0)
            (minted (codes "3"))
            640
            job.payload).0.bookings.bookings
        ≡ some
            (record (answer.1.booking) { status = expired; hold_expires_at = 0; updated_at = 640 }))
unfolding hold_place hold_booking hold_request hold grant granted_of hold_deadline schedule_expiry
    has_live_booking live_holds_for_parent holders max_holders schedule job_request enqueue
    written_of is_known_kind scheduled_at valid_payload validate_enqueue encode_booking_payload move
    record_event insert to_int16 lookup Text-discrete ◌+ℤ◌
unpaid_hold_lapses_example =
    unpaid_hold_lapses brace one_hold_each open_class hold_reading ask (codes "2") (codes "3")
      unbrace 640 refl (omega arith) unbrace-brace refl refl (omega arith, tt) refl (omega arith)
