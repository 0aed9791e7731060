-- ===== src/Store.antt =====
-- internal/store: the idempotency ledger, the cost ledger and the field versions.
pub mod Memory
pub mod Isolation
pub mod Ceiling
pub mod Provenance
pub mod Filled
pub mod Recorded
pub mod Spend
pub mod Postgres
