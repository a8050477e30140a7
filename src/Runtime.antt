-- ===== src/Runtime.antt =====
-- crates/frankclaw-runtime.
pub mod Context
pub mod Subagent
