-- ===== src/Domain.antt =====
-- internal/domain: the entities that the other packages share.
pub mod Errors
pub mod Fields
pub mod Values
pub mod Requests
