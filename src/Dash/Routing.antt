-- ===== src/Dash/Routing.antt =====
-- internal/dash/routing: which routing policy applies to a request.
pub mod Resolve
pub mod Folded
