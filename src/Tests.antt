-- ===== src/Tests.antt =====
-- Runs of the model on concrete inputs.
pub mod Fixed
pub mod Outbox
pub mod Shop
pub mod Consumer
pub mod Settlement
pub mod Restart
pub mod Payments
pub mod Monitor
pub mod Relocated
pub mod Webhook
pub mod Idempotency
pub mod Drain
pub mod Cleanup
