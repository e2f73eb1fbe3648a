-- ===== src/Idempotency.antt =====
-- Requests that carry a key and run once: server/src/api/idempotency.
pub mod Http
pub mod Cache
pub mod Middleware
pub mod Keys
pub mod Interleaved
pub mod Fair
pub mod Exclusive
pub mod Steps
pub mod Replay
