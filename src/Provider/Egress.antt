-- ===== src/Provider/Egress.antt =====
-- The way out of internal/provider/ssrf.go and egress.go: the guard of scheme and host, the
-- injection of a leased secret, and the exchange for an OAuth2 token. A request and its answer are
-- what these read of them.
pub mod Wire
pub mod Client
pub mod Guarded
