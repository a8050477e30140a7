-- ===== src/Plugins.antt =====
-- crates/frankclaw-plugin-sdk
pub mod Lifecycle
