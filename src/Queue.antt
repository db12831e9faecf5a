-- ===== src/Queue.antt =====
-- backend/internal/queue: background jobs, which workers claim for a while.
pub mod Model
pub mod Payload
pub mod Memory
mod Examples
