-- ===== src/Dash/Rotation.antt =====
-- internal/dash/rotation: which key of a pool serves a call, and what happens to a key.
pub mod Budget
pub mod Triggers
pub mod Parked
pub mod Select
pub mod Lease
