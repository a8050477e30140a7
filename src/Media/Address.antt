-- ===== src/Media/Address.antt =====
-- `is_safe_ip` of crates/frankclaw-core/src/media.rs. The classes of std (`is_private`, `is_loopback` and so on) are
-- written by the ranges that its documentation gives; `& 0xC0` and `& 0xFE` clear the low bits of a byte.
pub mod Ranges
mod Tests
use frankclaw.Prelude.{
  ℕ, ◌/◌, ◌%◌, ◌*◌, ◌^◌, Bool, true, false, Option, none, some, ◌&&◌, ◌||◌, not, nat_eqb, leb,
  if◌then◌else◌,
}
use frankclaw.Gateway.Net.{IpAddr, v4, v6}

-- `octets()[0]` to `octets()[3]`.
abbrev octet0 : ℕ → ℕ
octet0 ip = ip / 16777216

abbrev octet1 : ℕ → ℕ
octet1 ip = ip / 65536 % 256

abbrev octet2 : ℕ → ℕ
octet2 ip = ip / 256 % 256

is_loopback_v4 : ℕ → Bool
is_loopback_v4 ip = nat_eqb (octet0 ip) 127

is_private_v4 : ℕ → Bool
is_private_v4 ip =
    nat_eqb (octet0 ip) 10
    || (nat_eqb (octet0 ip) 172 && leb 16 (octet1 ip) && leb (octet1 ip) 31)
    || (nat_eqb (octet0 ip) 192 && nat_eqb (octet1 ip) 168)

is_link_local_v4 : ℕ → Bool
is_link_local_v4 ip = nat_eqb (octet0 ip) 169 && nat_eqb (octet1 ip) 254

is_broadcast_v4 : ℕ → Bool
is_broadcast_v4 ip = nat_eqb ip 4294967295

is_multicast_v4 : ℕ → Bool
is_multicast_v4 ip = leb 224 (octet0 ip) && leb (octet0 ip) 239

is_unspecified_v4 : ℕ → Bool
is_unspecified_v4 ip = nat_eqb ip 0

is_cgnat_v4 : ℕ → Bool
is_cgnat_v4 ip = nat_eqb (octet0 ip) 100 && nat_eqb (octet1 ip / 64 * 64) 64

is_documentation_v4 : ℕ → Bool
is_documentation_v4 ip =
    (nat_eqb (octet0 ip) 192 && nat_eqb (octet1 ip) 0 && nat_eqb (octet2 ip) 2)
    || (nat_eqb (octet0 ip) 198 && nat_eqb (octet1 ip) 51 && nat_eqb (octet2 ip) 100)
    || (nat_eqb (octet0 ip) 203 && nat_eqb (octet1 ip) 0 && nat_eqb (octet2 ip) 113)

is_benchmarking_v4 : ℕ → Bool
is_benchmarking_v4 ip = nat_eqb (octet0 ip) 198 && nat_eqb (octet1 ip / 2 * 2) 18

is_safe_v4 : ℕ → Bool
unfolding is_loopback_v4 is_private_v4 is_link_local_v4 is_broadcast_v4 is_multicast_v4
    is_unspecified_v4 is_cgnat_v4 is_documentation_v4 is_benchmarking_v4
is_safe_v4 ip =
    not (is_loopback_v4 ip)
    && not (is_private_v4 ip)
    && not (is_link_local_v4 ip)
    && not (is_broadcast_v4 ip)
    && not (is_multicast_v4 ip)
    && not (is_unspecified_v4 ip)
    && not (is_cgnat_v4 ip)
    && not (is_documentation_v4 ip)
    && not (is_benchmarking_v4 ip)

-- `to_ipv4_mapped`: `::ffff:a.b.c.d`.
to_ipv4_mapped : ℕ → Option ℕ
to_ipv4_mapped ip = if nat_eqb (ip / 2 ^ 32) 65535 then some (ip % 2 ^ 32) else none

is_private_mapped_v6 : ℕ → Bool
unfolding to_ipv4_mapped is_safe_v4
is_private_mapped_v6 ip = elim (to_ipv4_mapped ip) [
  | none ↦ false
  | some mapped ↦ not (is_safe_v4 mapped)
]

unfoldable pub is_safe_ip : IpAddr → Bool
unfolding is_safe_v4 is_private_mapped_v6
is_safe_ip (v4 ip) = is_safe_v4 ip
is_safe_ip (v6 ip) =
    not (nat_eqb ip 1)
    && not (nat_eqb (ip / 2 ^ 120) 255)
    && not (nat_eqb ip 0)
    && not (is_private_mapped_v6 ip)
