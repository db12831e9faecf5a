-- ===== src/Payment.antt =====
-- backend/internal/payment: whether money moved for a booking.
pub mod Model
pub mod Memory
pub mod Provider
pub mod Service
mod Examples
