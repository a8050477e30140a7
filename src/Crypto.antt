-- ===== src/Crypto.antt =====
-- crates/frankclaw-crypto
pub mod Error
pub mod Token
