-- ===== src/Lib.antt =====
-- The trial booking backend: children hold, pay for and get seats in small trial classes, and jobs
-- clean up behind them. This library models the domain packages under backend/internal that decide who
-- has a seat, who has paid, and what is put right later.
--
-- The parts and their sources:
--   Booking          backend/internal/booking: status.go (Booking.Status, the state machine),
--                    errors.go and faults.go (Booking.Errors), model.go, hold.go and the requests of
--                    repository.go (Booking.Model), seat.go and the seat query of
--                    repository_postgres.go (Booking.Seat), the reads and the writes of
--                    repository_memory.go (Booking.Memory.Reads and Writes), and service.go
--                    (Booking.Service)
--   Payment          backend/internal/payment: amount.go, attempt.go, idempotency.go, errors.go and the
--                    requests of repository.go (Payment.Model), repository_memory.go
--                    (Payment.Memory), provider.go and provider_mock.go (Payment.Provider),
--                    service.go and refund.go (Payment.Service)
--   Queue            backend/internal/queue: job.go, errors.go and the requests of queue.go
--                    (Queue.Model), payload.go (Queue.Payload), queue_memory.go (Queue.Memory)
--   Worker           backend/internal/worker: reconcile_refund.go and expire_hold.go (Worker.Handlers),
--                    and of runner.go one poll and its dispatch (Worker.Runner)
--   Checkout         backend/internal/checkout: price.go (Checkout.Price), service.go, hold.go and
--                    pay.go (Checkout.Service)
--   Auth             backend/internal/auth: errors.go and failure.go (Auth.Errors), store.go and
--                    store_memory.go (Auth.Store), denylist_memory.go (Auth.Denylist), claims.go
--                    (Auth.Claims), jwt.go (Auth.Jwt), directory.go and directory_memory.go
--                    (Auth.Directory), service.go and refresh.go (Auth.Session, Auth.Service)
--   Faults           backend/internal/faults: points.go and registry.go, the failures that a
--                    demonstration arms
--   Cache            backend/internal/cache: the entry of store.go, errors.go and store_memory.go
--   Roster           backend/internal/roster: model.go, errors.go and reader_memory.go
--   Identifier       backend/internal/identifier: the answer of the minting, which is an argument
--
-- How they interact: the checkout is where the seat, the money and the queue meet. Payment
-- settles first and the seat is decided second, so a paid booking that finds no seat is left in
-- refund_required. The worker's refund job reads such a booking, asks the payment service for
-- the refund and then cancels the booking; its jobs come from the queue, which hands each to one
-- worker for the time of a lease.
--
-- Conventions. A repository is a record of its maps, and a method is a function from the record to
-- the record and Go's results; every method holds one mutex from its first read to its last write,
-- so concurrent callers are the schedules of whole calls that the Schedule modules define. A Go map is
-- an association list (Prelude.Assoc) in one of the orders in which Go may walk it; where the code
-- sorts what it walked, so does the model. A string is the list of its bytes (Text), an instant the
-- nanoseconds since Go's zero instant (Time, so 0 is the zero value), a duration and an int an integer
-- (ℤ); int16 wraps where the code increments or converts. Error values are constructors, compared by
-- identity as errors.Is does; nil is none. A clock that is read, an identifier that is minted and an
-- armed fault are arguments or fields, so theorems hold for all of them. Nothing runs on fuel: every
-- loop is over a list or a count.
--
-- Atomicity. The calls of the repositories, the queue, the stores and the registries are steps that
-- schedules interleave. A service call that enters several critical sections (Pay of the payment
-- service: Begin, Charge and Settle; Hold and Pay of the checkout; a handler of the worker) is
-- modelled as one step, so what is shown of such a call is shown of a call that nobody interrupts;
-- SeatsRemaining takes the states of its two reads.
--
-- Not modelled: the PostgreSQL repositories except the seat query, whose state is the database, and
-- the Redis clients; the HTTP layer, the frontend, metrics, configuration and start-up, which carry no
-- domain rule of their own; the catalogue and the minting of an identifier; rate limits, which count in
-- floating point; and of the worker the endless loop around a poll. Libraries of others are
-- parameters, with what the code relies on as hypotheses: JSON, base64, HMAC, the hash of a token, the
-- check of a password and the normal form of an address.
pub mod Prelude
pub mod Identifier
pub mod Booking
pub mod Cache
pub mod Payment
pub mod Queue
pub mod Worker
pub mod Checkout
pub mod Auth
pub mod Faults
pub mod Roster
