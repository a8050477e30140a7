-- ===== src/Core/Error.antt =====
-- crates/frankclaw-core/src/error.rs. Identifiers (`AgentId`, `ChannelId`, `SessionKey`) are the
-- strings that they wrap.
use Prim.Native.String.{◌++◌}
use frankclaw.Prelude.{ℕ, String, Bool, true, false, show, ◌≡◌, refl, ◌⊎◌, inl, inr}
use frankclaw.Crypto.Error.{
  CryptoError, encryption_failed, decryption_failed, key_derivation_failed, hashing_failed,
  verification_failed, invalid_key_length,
}

pub data FrankClawError : Type 0 where
  auth_required auth_failed : FrankClawError
  rate_limited : ℕ → FrankClawError
  forbidden : String → FrankClawError
  session_not_found session_storage : String → FrankClawError
  channel : String → String → FrankClawError
  channel_not_configured channel_disabled sender_blocked : String → FrankClawError
  agent_not_found agent_runtime : String → FrankClawError
  turn_cancelled : FrankClawError
  sandbox model_provider : String → FrankClawError
  all_providers_failed : FrankClawError
  model_not_found config_validation config_io invalid_request unknown_method :
      String → FrankClawError
  request_too_large media_too_large : ℕ → FrankClawError
  media_fetch_blocked unsupported_media_type : String → FrankClawError
  malware_detected : String → String → FrankClawError
  crypto : CryptoError → FrankClawError
  memory_store embedding_provider internal : String → FrankClawError
  shutting_down : FrankClawError

-- `Result<T>`.
pub data Result {ℓ} (A : Type ℓ) : Type ℓ where
  ok : A → Result A
  err : FrankClawError → Result A

-- The `?` operator.
infixl 5 ◌>>=◌
abbrev pub ◌>>=◌ {ℓ κ} : {A : Type ℓ} {B : Type κ} → Result A → (A → Result B) → Result B
ok a >>= f = f a
err e >>= f = err e

pub Result-cases {ℓ} :
    {A : Type ℓ} (r : Result A) → ((a : A) × (r ≡ ok a)) ⊎ ((e : FrankClawError) × (r ≡ err e))
Result-cases (ok a) = inl (a, refl)
Result-cases (err e) = inr (e, refl)

unfoldable pub is_retryable : FrankClawError → Bool
is_retryable (rate_limited s) = true
is_retryable (model_provider m) = true
is_retryable all_providers_failed = true
is_retryable (internal m) = true
is_retryable _ = false

unfoldable pub status_code : FrankClawError → ℕ
status_code auth_required = 401
status_code auth_failed = 401
status_code (rate_limited s) = 429
status_code (forbidden m) = 403
status_code (session_not_found k) = 404
status_code (agent_not_found a) = 404
status_code (model_not_found m) = 404
status_code (channel_not_configured c) = 404
status_code (invalid_request m) = 400
status_code (unknown_method m) = 400
status_code (request_too_large n) = 413
status_code (media_too_large n) = 413
status_code (media_fetch_blocked r) = 403
status_code (malware_detected f d) = 403
status_code (config_validation m) = 422
status_code (sender_blocked c) = 403
status_code turn_cancelled = 499
status_code _ = 500

-- The `#[error(..)]` texts of `CryptoError` (crates/frankclaw-crypto/src/lib.rs).
crypto_text : CryptoError → String
crypto_text encryption_failed = "encryption failed"
crypto_text decryption_failed = "decryption failed (wrong key or corrupted data)"
crypto_text key_derivation_failed = "key derivation failed"
crypto_text hashing_failed = "password hashing failed"
crypto_text verification_failed = "password verification failed"
crypto_text invalid_key_length = "invalid key length"

-- The `#[error(..)]` texts: `to_string` of an error.
unfoldable pub to_string : FrankClawError → String
unfolding crypto_text
to_string auth_required = "authentication required"
to_string auth_failed = "authentication failed"
to_string (rate_limited secs) = "rate limited (retry after " ++ show secs ++ "s)"
to_string (forbidden method) = "insufficient permissions for method " ++ method
to_string (session_not_found key) = "session not found: " ++ key
to_string (session_storage msg) = "session storage error: " ++ msg
to_string (channel id msg) = "channel " ++ id ++ " error: " ++ msg
to_string (channel_not_configured id) = "channel " ++ id ++ " not configured"
to_string (channel_disabled id) = "channel " ++ id ++ " is disabled"
to_string (sender_blocked id) = "sender blocked by policy on channel " ++ id
to_string (agent_not_found id) = "agent " ++ id ++ " not found"
to_string (agent_runtime msg) = "agent runtime error: " ++ msg
to_string turn_cancelled = "agent turn cancelled"
to_string (sandbox msg) = "sandbox error: " ++ msg
to_string (model_provider msg) = "model provider error: " ++ msg
to_string all_providers_failed = "all model providers failed"
to_string (model_not_found id) = "model not found: " ++ id
to_string (config_validation msg) = "config validation error: " ++ msg
to_string (config_io msg) = "config I/O error: " ++ msg
to_string (invalid_request msg) = "invalid request: " ++ msg
to_string (unknown_method method) = "unknown method: " ++ method
to_string (request_too_large bytes) = "request too large (max " ++ show bytes ++ " bytes)"
to_string (media_too_large bytes) = "media file too large (max " ++ show bytes ++ " bytes)"
to_string (media_fetch_blocked reason) = "media fetch blocked: " ++ reason
to_string (unsupported_media_type mime) = "unsupported media type: " ++ mime
to_string (malware_detected filename detail) =
    "malware detected in file '" ++ filename ++ "': " ++ detail
to_string (crypto e) = "cryptographic operation failed: " ++ crypto_text e
to_string (memory_store msg) = "memory store error: " ++ msg
to_string (embedding_provider msg) = "embedding provider error: " ++ msg
to_string (internal msg) = "internal error: " ++ msg
to_string shutting_down = "shutdown in progress"
