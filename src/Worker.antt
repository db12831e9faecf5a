-- ===== src/Worker.antt =====
-- backend/internal/worker: what a claimed job does to bookings and payments.
pub mod Handlers
pub mod Refunds
pub mod Closing
pub mod Success
pub mod Runner
mod Examples
