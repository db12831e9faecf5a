-- ===== src/Auth.antt =====
-- backend/internal/auth: the sessions of the parents.
pub mod Errors
pub mod Claims
pub mod Jwt
pub mod Store
pub mod Denylist
pub mod Directory
pub mod Session
pub mod Service
mod Examples
