-- ===== src/Drain.antt =====
-- From recorded obligations to queued webhooks: server/src/services/webhook_outbox_drain.rs.
pub mod Outbox
pub mod Dispatch
pub mod Settled
pub mod Claimed
pub mod Marked
pub mod Accounted
pub mod Claims
pub mod Answered
pub mod Progress
