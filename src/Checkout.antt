-- ===== src/Checkout.antt =====
-- backend/internal/checkout: the order of a checkout, where the seat, the money and the queue meet.
pub mod Price
pub mod Service
pub mod Jobs
pub mod Cases
pub mod Paid
pub mod Refunded
pub mod Lapsed
mod Examples
