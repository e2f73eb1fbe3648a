-- ===== src/Webhook.antt =====
-- The queue of webhooks: server/src/services/webhook.
pub mod Job
pub mod Queue
pub mod Calls
pub mod Kept
pub mod Paging
pub mod Capped
