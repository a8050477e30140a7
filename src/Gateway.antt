-- ===== src/Gateway.antt =====
-- crates/frankclaw-gateway
pub mod Net
pub mod RateLimit
pub mod Auth
pub mod Exposure
pub mod WebhookLimiter
pub mod Pairing
pub mod HealthMonitor
pub mod Delivery
pub mod Canvas
