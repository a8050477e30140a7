-- ===== src/Core.antt =====
-- crates/frankclaw-core
pub mod Error
pub mod Ids
pub mod ApiKeys
pub mod Message
pub mod Sanitize
pub mod Sessions
