-- ===== src/Gateway/Delivery.antt =====
-- crates/frankclaw-gateway/src/delivery.rs
pub mod Split
pub mod Message
pub mod Send
pub mod Stream
pub mod Reply
