-- ===== src/Dash.antt =====
-- internal/dash: the services of the dashboard.
pub mod Rbac
pub mod Approvals
pub mod Rotation
pub mod Audit
pub mod Routing
