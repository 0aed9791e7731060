-- ===== src/Router.antt =====
-- internal/router: the ordered plan of provider calls.
pub mod Types
pub mod Planner
