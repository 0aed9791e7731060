-- ===== src/Dash/Audit.antt =====
-- internal/dash/audit: the evidence log of each tenant, chained by hashes.
pub mod Canonical
pub mod Chain
pub mod Intact
pub mod Tamper
