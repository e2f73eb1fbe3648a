-- ===== src/Consumer/Invariants.antt =====
-- What no handler of server/src/services/event_consumer changes, and what all of them keep true of
-- the tables.
pub mod Cursors
pub mod Received
pub mod Unique
