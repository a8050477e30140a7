-- ===== src/Gateway/Exposure/Tests.antt =====
-- The exposure assessment at concrete configurations.
use frankclaw.Prelude.{◌≡◌, ◌↔◌, refl, Bool, true, Option, none, some, String, []}
use frankclaw.Core.Error.{ok}
use frankclaw.Gateway.Net.{IpAddr, v4, is_private}
use frankclaw.Gateway.Auth.{token}
use frankclaw.Gateway.Exposure.{address, public_address, ExposureReport, assess_exposure}
use frankclaw.Gateway.Exposure.Safety.{IsDirect, IsNotPrivateBind, public_ready_iff}

-- A parser that knows one address, 8.8.8.8.
abbrev parse_dns : String → Option IpAddr
parse_dns text = some (v4 134744072)

abbrev exposed : ExposureReport
exposed = record {
  surface = public_address "8.8.8.8";
  auth_mode = "token";
  remote_ready = true;
  public_ready = true;
  summary = "network-exposed gateway with direct auth";
  warnings = [];
}

exposed_report : assess_exposure parse_dns (address "8.8.8.8") (token none) true ≡ ok exposed
unfolding assess_exposure is_private
exposed_report = refl

private_network : is_private (v4 3232235521) ≡ true
unfolding is_private
private_network = refl

public_ready_iff_example : (exposed.public_ready ≡ true) ↔ (
    IsNotPrivateBind parse_dns (address "8.8.8.8")
    × IsDirect (token none)
    × (◌≡◌ {A = Bool} true true))
public_ready_iff_example =
    public_ready_iff parse_dns (address "8.8.8.8") (token none) true exposed exposed_report

-- A parser that knows one address, 127.0.0.1.
abbrev parse_loopback : String → Option IpAddr
parse_loopback text = some (v4 2130706433)

loopback_is_public :
    assess_exposure parse_loopback (address "127.0.0.1") (token none) true
    ≡ ok (record {
      surface = public_address "127.0.0.1";
      auth_mode = "token";
      remote_ready = true;
      public_ready = true;
      summary = "network-exposed gateway with direct auth";
      warnings = [];
    })
unfolding assess_exposure is_private
loopback_is_public = refl
