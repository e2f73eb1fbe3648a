-- ===== src/Monitor.antt =====
-- The chain monitor: evm/src/monitor/chain and evm/src/monitor/source.
pub mod State
pub mod Scan
pub mod Reads
pub mod Confirmations
pub mod Reorganization
pub mod Blocks
pub mod Lifecycle
pub mod Succeeds
pub mod Coverage
pub mod Progress
pub mod Pending
pub mod Survivors
