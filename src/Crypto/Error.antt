-- ===== src/Crypto/Error.antt =====
-- `CryptoError` of crates/frankclaw-crypto/src/lib.rs.
pub data CryptoError : Type 0 where
  encryption_failed decryption_failed key_derivation_failed hashing_failed verification_failed :
      CryptoError
  invalid_key_length : CryptoError
