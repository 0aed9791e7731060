-- ===== src/Engine.antt =====
-- internal/engine: the execution of a plan under the five gates.
pub mod Fuse
pub mod Types
pub mod Fill
pub mod Run
pub mod Gates
