-- ===== src/Auth.antt =====
-- internal/auth: the tokens that a request carries.
pub mod Token
pub mod Claims
pub mod Verify
pub mod Authentic
