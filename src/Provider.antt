-- ===== src/Provider.antt =====
-- internal/provider: adapters, the circuit breaker and the bounded call.
pub mod Env
pub mod Breaker
pub mod Call
pub mod Egress
