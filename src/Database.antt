-- ===== src/Database.antt =====
-- The server's tables and the calls that read and write them, data-service/src/postgres.
-- A call can fail at any time: `down n` says whether the n-th call of a run does. Identifiers,
-- addresses of rows and times are natural numbers; a NUMERIC column is held by its text; a
-- `types::ChainId` of an EVM chain is the chain's number.
pub mod Rows
pub mod Monad
pub mod Keeps
pub mod Ensures
pub mod Payments
pub mod Invoices
pub mod Settings
pub mod Cursors
