-- ===== src/Gateway/Exposure.antt =====
-- `validate_bind_auth` and `assess_exposure` of crates/frankclaw-gateway/src/auth.rs, with `BindMode`
-- of crates/frankclaw-core/src/config.rs.
pub mod Safety
mod Tests
use frankclaw.Prelude.{
  String, Bool, true, false, Option, none, some, List, [], ◌∷◌, ◌++◌, ◌&&◌, not, if◌then◌else◌,
}
use Prim.Native.String
use frankclaw.Core.Error.{Result, ok, err, config_validation, ◌>>=◌}
use frankclaw.Gateway.Net.{IpAddr, is_private}
use frankclaw.Gateway.Auth.{AuthMode, no_auth, token, password, trusted_proxy, tailscale}

pub data BindMode : Type 0 where
  loopback lan : BindMode
  address : String → BindMode

unfoldable pub validate_bind_auth : BindMode → AuthMode → Result (Unit {0})
validate_bind_auth loopback auth = ok tt
validate_bind_auth bind no_auth = err (
    config_validation
      "gateway.auth must be configured when bind mode is 'lan' or a specific address. Set gateway.auth.mode to 'token' or 'password'.")
validate_bind_auth bind auth = ok tt

pub data ExposureSurface : Type 0 where
  loopback lan : ExposureSurface
  private_address public_address : String → ExposureSurface

pub record ExposureReport : Type 0 where
  pub surface : ExposureSurface
  pub auth_mode : String
  pub remote_ready : Bool
  pub public_ready : Bool
  pub summary : String
  pub warnings : List String

-- `auth_mode_name`.
auth_mode_name : AuthMode → String
auth_mode_name no_auth = "none"
auth_mode_name (token t) = "token"
auth_mode_name (password h) = "password"
auth_mode_name (trusted_proxy h) = "trusted_proxy"
auth_mode_name tailscale = "tailscale"

is_loopback : ExposureSurface → Bool
is_loopback ExposureSurface.loopback = true
is_loopback _ = false

-- `!matches!(surface, Loopback | Lan | PrivateAddress(_))`.
is_public : ExposureSurface → Bool
is_public (public_address a) = true
is_public _ = false

module _ (parse_ip : String → Option IpAddr) where
  -- `classify_surface`; `parse_ip` is `str::parse::<IpAddr>` of the standard library.
  classify_surface : BindMode → Result ExposureSurface
  classify_surface BindMode.loopback = ok ExposureSurface.loopback
  classify_surface BindMode.lan = ok ExposureSurface.lan
  classify_surface (address text) = elim (parse_ip text) [
    | none ↦ err (
        config_validation
          (String.◌++◌ "gateway.bind address '" (String.◌++◌ text "' is not a valid IP address")))
    | some ip ↦ ok (if is_private ip then private_address text else public_address text)
  ]

-- What the `match &config.gateway.auth` of `assess_exposure` does to its three variables.
record Readiness : Type 0 where
  remote_ready : Bool
  public_ready : Bool
  warnings : List String

assess_auth : AuthMode → Bool → ExposureSurface → Readiness → Readiness
assess_auth no_auth tls surface r = record r { remote_ready = false; public_ready = false }
assess_auth (trusted_proxy h) tls surface r = record r {
  warnings =
      r.warnings
      ++ "trusted_proxy mode assumes a header-scrubbing reverse proxy; do not expose it directly"
        ∷ [];
  public_ready = false;
}
assess_auth tailscale tls surface r = record r {
  warnings =
      r.warnings
      ++ "tailscale auth expects identity headers from a trusted Tailscale-aware proxy path" ∷ [];
  public_ready = false;
}
assess_auth _ tls surface r =
    if not tls && not (is_loopback surface)
    then record r {
      warnings =
          r.warnings
          ++ "network-exposed direct auth is running without TLS; keep it tailnet-only or terminate TLS upstream"
            ∷ [];
      public_ready = false;
    }
    else r

summary_of : ExposureSurface → AuthMode → String
summary_of ExposureSurface.loopback auth = "local-only gateway"
summary_of surface (token t) = "network-exposed gateway with direct auth"
summary_of surface (password h) = "network-exposed gateway with direct auth"
summary_of surface (trusted_proxy h) = "reverse-proxy mediated gateway"
summary_of surface tailscale = "tailnet-mediated gateway"
summary_of surface no_auth = "misconfigured network exposure"

report : ExposureSurface → AuthMode → Bool → ExposureReport
unfolding is_loopback is_public assess_auth summary_of auth_mode_name
report surface auth tls =
    let r = assess_auth auth tls surface (record {
      remote_ready = not (is_loopback surface);
      public_ready = is_public surface;
      warnings = [];
    }) in
    record {
      surface = surface;
      auth_mode = auth_mode_name auth;
      remote_ready = r.remote_ready;
      public_ready = r.public_ready;
      summary = summary_of surface auth;
      warnings =
          if is_loopback surface
          then r.warnings ++ "gateway is loopback-only; remote access is disabled" ∷ []
          else r.warnings;
    }

-- `assess_exposure`, with the fields of the configuration that it reads: the bind mode, the
-- authentication, and whether TLS is configured.
unfoldable pub assess_exposure :
    (String → Option IpAddr) → BindMode → AuthMode → Bool → Result ExposureReport
unfolding report validate_bind_auth classify_surface
assess_exposure parse_ip bind auth tls = do
  _ ← validate_bind_auth bind auth
  surface ← classify_surface parse_ip bind
  ok (report surface auth tls)
