-- ===== src/Booking/Memory.antt =====
-- backend/internal/booking/repository_memory.go: the repository under one mutex. A method is a
-- function from the repository to the repository and what it returns, a Go pair (value, error).
-- The mutex makes each method one step; a schedule of calls is a list of steps.
pub mod Reads
pub mod Writes
pub mod Cases
pub mod Invariant
pub mod Safety
pub mod Schedule
pub mod Capacity
pub mod Confirm
pub mod Rollback
pub mod Race
pub mod Decided
pub mod Held
pub mod Trail
