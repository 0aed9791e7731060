-- ===== src/Durable.antt =====
-- internal/durable: crash-safe delivery of jobs.
pub mod Log
pub mod Outbox
pub mod Relay
