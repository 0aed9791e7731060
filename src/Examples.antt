-- ===== src/Examples.antt =====
-- Concrete data, and the theorems applied to it.
pub mod Data
pub mod Stored
pub mod Calls
pub mod Runs
pub mod Logs
pub mod Plans
pub mod Jobs
pub mod Outbox
pub mod Votes
pub mod Leases
pub mod Evidence
pub mod Tables
pub mod Failover
pub mod Requests
pub mod Callbacks
pub mod Policies
pub mod Tokens
