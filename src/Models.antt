-- ===== src/Models.antt =====
-- crates/frankclaw-models
pub mod CircuitBreaker
pub mod Retry
pub mod Failover
pub mod CostGuard
pub mod ResponseCache
pub mod Sse
