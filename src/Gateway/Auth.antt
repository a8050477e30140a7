-- ===== src/Gateway/Auth.antt =====
-- `authenticate` of crates/frankclaw-gateway/src/auth.rs, and `AuthMode`, `AuthRole` of
-- crates/frankclaw-core/src/auth.rs. Secrets are the bytes of their text.
pub mod Access
mod Tests
use frankclaw.Prelude.{
  ℕ, ◌/◌, String, Bool, Option, none, some, List, ◌==◌, string_eq, if◌then◌else◌,
}
use frankclaw.Core.Error.{
  FrankClawError, Result, ok, err, auth_required, auth_failed, rate_limited, internal,
}
use frankclaw.Crypto.Token.{verify_token_eq}
use frankclaw.Gateway.Net.{IpAddr}
use frankclaw.Gateway.RateLimit.{AuthRateLimiter, is_locked, record_failure, record_success}

pub data AuthMode : Type 0 where
  no_auth : AuthMode
  token : Option (List ℕ) → AuthMode
  password : String → AuthMode
  trusted_proxy : String → AuthMode
  tailscale : AuthMode

pub data AuthRole : Type 0 where
  viewer editor admin ai_only node : AuthRole

pub data AuthCredential : Type 0 where
  bearer_token : List ℕ → AuthCredential
  password : List ℕ → AuthCredential
  proxy_identity : String → AuthCredential
  tailscale_identity : String → AuthCredential
  no_credential : AuthCredential

-- The two reads of the clock in `is_locked`, and the one in `record_failure`.
pub record Clock : Type 0 where
  pub asked : ℕ
  pub later : ℕ
  pub recorded : ℕ

module _ (verify_password : List ℕ → String → Option Bool) where
  -- The `match (mode, provided)` of `authenticate`. `verify_password` is the Argon2id check of the
  -- `argon2` crate, with `none` for its errors.
  check_credential : AuthMode → AuthCredential → Result AuthRole
  check_credential no_auth provided = ok admin
  check_credential (token (some expected)) (bearer_token provided) =
      if verify_token_eq provided expected then ok admin else err auth_failed
  check_credential (AuthMode.password hash) (AuthCredential.password provided) =
      elim (verify_password provided hash) [
        | none ↦ err auth_failed
        | some matches ↦ if matches then ok admin else err auth_failed
      ]
  check_credential (trusted_proxy header) (proxy_identity identity) =
      if identity == "" then err auth_failed else ok editor
  check_credential tailscale (tailscale_identity identity) =
      if identity == "" then err auth_failed else ok admin
  check_credential (token none) provided = err (internal "auth misconfigured")
  check_credential _ _ = err auth_required

  -- The record of the outcome in the rate limiter.
  record_outcome : Result AuthRole → IpAddr → ℕ → AuthRateLimiter → AuthRateLimiter
  record_outcome (ok role) ip now l = record_success l ip
  record_outcome (err auth_failed) ip now l = record_failure l ip now
  record_outcome (err e) ip now l = l

  unfoldable pub authenticate :
      AuthMode
      → AuthCredential
      → Option IpAddr
      → Clock
      → AuthRateLimiter
      → Result AuthRole × AuthRateLimiter
  unfolding check_credential record_outcome
  authenticate mode provided none clock l = (check_credential mode provided, l)
  authenticate mode provided (some ip) clock l = elim (is_locked l ip clock.asked clock.later) [
    | some remaining ↦ (err (rate_limited (remaining / 1000000000)), l)
    | none ↦
        let result = check_credential mode provided in
        (result, record_outcome result ip clock.recorded l)
  ]
