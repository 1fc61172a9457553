-- ===== src/Backend.antt =====
-- The backend service, backend/backend: what stands between a request and the database.
pub mod Auth
pub mod RateLimit
pub mod Passwords
mod Samples
