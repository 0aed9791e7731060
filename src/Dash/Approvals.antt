-- ===== src/Dash/Approvals.antt =====
-- internal/dash/approvals: the quorum in front of the most dangerous writes.
pub mod Policy
pub mod Tables
pub mod Decide
pub mod Gate
pub mod Statements
pub mod Quorum
