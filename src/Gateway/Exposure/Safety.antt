-- ===== src/Gateway/Exposure/Safety.antt =====
-- When the gateway of crates/frankclaw-gateway/src/auth.rs is declared safe to expose.
use frankclaw.Prelude.{
  String, ◌≡◌, ◌≢◌, ◌↔◌, refl, Bool, true, false, Option, some, none, arith, ◌⊎◌, inl,
}
use frankclaw.Core.Error.{ok}
use frankclaw.Gateway.Net.{IpAddr, is_private}
use frankclaw.Gateway.Auth.{AuthMode, no_auth, token, password}
use frankclaw.Gateway.Exposure.{
  BindMode, lan, loopback, address, ExposureReport, is_public, ExposureSurface, report,
  assess_exposure,
}

-- The gateway itself checks a secret of the client.
abbrev pub IsDirect : AuthMode → Type 0
IsDirect (token t) = Unit
IsDirect (password h) = Unit
IsDirect _ = ⊥

-- An address that is not private and not link-local; one of the loopback interface is not either.
abbrev pub IsNotPrivateIp : Option IpAddr → Type 0
IsNotPrivateIp none = ⊥
IsNotPrivateIp (some ip) = is_private ip ≡ false

-- The bind mode is an address that parses and is not private or link-local.
abbrev pub IsNotPrivateBind : (String → Option IpAddr) → BindMode → Type 0
IsNotPrivateBind parse_ip (address text) = IsNotPrivateIp (parse_ip text)
IsNotPrivateBind parse_ip _ = ⊥

report_public :
    (surface : ExposureSurface) (auth : AuthMode) (tls : Bool)
    → ((report surface auth tls).public_ready ≡ true)
      ↔ ((is_public surface ≡ true) × IsDirect auth × (tls ≡ true))
unfolding report
report_public surface auth tls = ground arith

-- An accepted configuration is declared ready for the public exactly when the gateway binds to an
-- address given in numbers that is neither private nor link-local (a unique local one of IPv6 counts as
-- private), checks a token or a password itself, and has TLS. The loopback addresses 127.0.0.0/8 and ::1
-- and the unspecified address 0.0.0.0 are neither, so that they too are declared ready for the public.
pub public_ready_iff :
    (parse_ip : String → Option IpAddr) (bind : BindMode) (auth : AuthMode) (tls : Bool)
    (r : ExposureReport)
    → assess_exposure parse_ip bind auth tls ≡ ok r
    → (r.public_ready ≡ true) ↔ (IsNotPrivateBind parse_ip bind × IsDirect auth × (tls ≡ true))
unfolding assess_exposure
public_ready_iff parse_ip loopback auth tls r h =
    ground (arith, report_public ExposureSurface.loopback auth tls)
public_ready_iff parse_ip lan auth tls r h =
    ground (arith, report_public ExposureSurface.lan auth tls)
public_ready_iff parse_ip (address text) auth tls r h = ground arith

-- A gateway without authentication is accepted on the loopback interface only.
assess_exposure-no_auth :
    (parse_ip : String → Option IpAddr) (bind : BindMode) (auth : AuthMode) (tls : Bool)
    (r : ExposureReport)
    → assess_exposure parse_ip bind auth tls ≡ ok r
    → (bind ≡ loopback) ⊎ ((auth ≢ no_auth) × (r.remote_ready ≡ true))
unfolding assess_exposure
assess_exposure-no_auth parse_ip loopback auth tls r h = inl refl
assess_exposure-no_auth parse_ip lan auth tls r h = ground arith
assess_exposure-no_auth parse_ip (address text) auth tls r h = ground arith
