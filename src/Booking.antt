-- ===== src/Booking.antt =====
-- backend/internal/booking: who holds a seat.
pub mod Status
pub mod Errors
pub mod Model
pub mod Seat
pub mod Memory
pub mod Service
mod Examples
