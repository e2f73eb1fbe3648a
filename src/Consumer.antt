-- ===== src/Consumer.antt =====
-- The event consumer: server/src/services/event_consumer.
pub mod Services
pub mod Convert
pub mod Detected
pub mod Confirmed
pub mod Reorg
pub mod Resume
pub mod Keeps
pub mod Writes
pub mod Invariants
pub mod Redelivery
pub mod Reorganized
pub mod Settled
pub mod Retracted
