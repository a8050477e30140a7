-- ===== src/Cron.antt =====
-- crates/frankclaw-cron: background jobs.
pub mod Job
pub mod Triggers
pub mod Service
