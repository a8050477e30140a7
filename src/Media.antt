-- ===== src/Media.antt =====
-- crates/frankclaw-media, and the addresses that crates/frankclaw-core/src/media.rs lets it connect to.
pub mod Address
pub mod Fetch
