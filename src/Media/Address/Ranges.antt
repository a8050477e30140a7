-- ===== src/Media/Address/Ranges.antt =====
-- The ranges of addresses that crates/frankclaw-core/src/media.rs blocks.
use frankclaw.Prelude.{
  ℕ, ◌/◌, ◌^◌, ◌*◌, ◌+◌, some, ◌<◌, ◌≡◌, refl, Bool, true, false, List, [], ◌∷◌, any, not, ◌&&◌,
  ◌||◌, leb, nat_eqb, arith,
}
use frankclaw.Gateway.Net.{v4, v6, is_private}
use frankclaw.Media.Address.{
  is_loopback_v4, is_private_v4, is_link_local_v4, is_broadcast_v4, is_multicast_v4,
  is_unspecified_v4, is_cgnat_v4, is_documentation_v4, is_benchmarking_v4, is_safe_v4,
  to_ipv4_mapped, is_private_mapped_v6, is_safe_ip,
}

-- From the first address to the last.
abbrev within : ℕ → ℕ → ℕ → Bool
within first last ip = leb first ip && leb ip last

-- The ranges of IPv4 by their first and last addresses: loopback, private (three), link-local,
-- broadcast, multicast, this host, shared, documentation (three), benchmarking.
abbrev pub blocked : List (ℕ × ℕ)
blocked =
    (2130706432, 2147483647)
    ∷ (167772160, 184549375)
    ∷ (2886729728, 2887778303)
    ∷ (3232235520, 3232301055)
    ∷ (2851995648, 2852061183)
    ∷ (4294967295, 4294967295)
    ∷ (3758096384, 4026531839)
    ∷ (0, 0)
    ∷ (1681915904, 1686110207)
    ∷ (3221225984, 3221226239)
    ∷ (3325256704, 3325256959)
    ∷ (3405803776, 3405804031)
    ∷ (3323068416, 3323199487)
    ∷ []

abbrev pub is_blocked : ℕ → Bool
is_blocked ip = any (λ range. within range.0 range.1 ip) blocked

loopback_lem : (ip : ℕ) → is_loopback_v4 ip ≡ within 2130706432 2147483647 ip
unfolding is_loopback_v4
loopback_lem ip = ground arith

multicast_lem : (ip : ℕ) → is_multicast_v4 ip ≡ within 3758096384 4026531839 ip
unfolding is_multicast_v4
multicast_lem ip = ground arith

private_lem :
    (ip : ℕ)
    → is_private_v4 ip ≡ (
        within 167772160 184549375 ip
        || within 2886729728 2887778303 ip
        || within 3232235520 3232301055 ip)
unfolding is_private_v4
private_lem ip = ground arith

link_local_lem : (ip : ℕ) → is_link_local_v4 ip ≡ within 2851995648 2852061183 ip
unfolding is_link_local_v4
link_local_lem ip = ground arith

cgnat_lem : (ip : ℕ) → is_cgnat_v4 ip ≡ within 1681915904 1686110207 ip
unfolding is_cgnat_v4
cgnat_lem ip = ground arith

documentation_lem :
    (ip : ℕ)
    → is_documentation_v4 ip ≡ (
        within 3221225984 3221226239 ip
        || within 3325256704 3325256959 ip
        || within 3405803776 3405804031 ip)
unfolding is_documentation_v4
documentation_lem ip = ground arith

benchmarking_lem : (ip : ℕ) → is_benchmarking_v4 ip ≡ within 3323068416 3323199487 ip
unfolding is_benchmarking_v4
benchmarking_lem ip = ground arith

single_lem : (k ip : ℕ) → nat_eqb ip k ≡ within k k ip
single_lem k ip = ground arith

-- De Morgan's law and the laws that bring both sides to one shape.
not-or : (a b : Bool) → not (a || b) ≡ (not a && not b)
not-or a b = ground arith

and_assoc : (a b c : Bool) → ((a && b) && c) ≡ (a && (b && c))
and_assoc a b c = ground arith

and_true : (a : Bool) → (a && true) ≡ a
and_true a = ground arith

is_safe_v4_lem : (ip : ℕ) → is_safe_v4 ip ≡ not (is_blocked ip)
unfolding is_safe_v4 is_broadcast_v4 is_unspecified_v4
is_safe_v4_lem ip =
    rw
      (
        loopback_lem ip,
        private_lem ip,
        link_local_lem ip,
        single_lem 4294967295 ip,
        multicast_lem ip,
        single_lem 0 ip,
        cgnat_lem ip,
        documentation_lem ip,
        benchmarking_lem ip,
      )
      (simp (not-or, and_assoc, and_true) refl)

module _ (ip : ℕ) (h : ip < 2 ^ 32) where
  to_ipv4_mapped_lem : to_ipv4_mapped (65535 * 2 ^ 32 + ip) ≡ some ip
  unfolding to_ipv4_mapped
  to_ipv4_mapped_lem = ground arith

  mapped_guards :
      (nat_eqb (65535 * 2 ^ 32 + ip) 1 ≡ false)
      × ((nat_eqb ((65535 * 2 ^ 32 + ip) / 2 ^ 120) 255 ≡ false)
          × (nat_eqb (65535 * 2 ^ 32 + ip) 0 ≡ false))
  mapped_guards = (ground arith, (ground arith, ground arith))

double_negation : (a : Bool) → not (not a) ≡ a
double_negation a = ground arith

-- An IPv4 address, also one written as the IPv6 address that maps it, is let through exactly when it lies
-- in none of these ranges: 127.0.0.0/8, 10.0.0.0/8, 172.16.0.0/12, 192.168.0.0/16, 169.254.0.0/16,
-- 255.255.255.255, 224.0.0.0/4, 0.0.0.0, 100.64.0.0/10, 192.0.2.0/24, 198.51.100.0/24, 203.0.113.0/24 and
-- 198.18.0.0/15. The reserved range 240.0.0.0/4 but for its last address, and 0.0.0.0/8 but for its first,
-- are not among them.
pub is_safe_ip-is_blocked :
    (ip : ℕ)
    → ip < 2 ^ 32
    → (is_safe_ip (v4 ip) ≡ not (is_blocked ip))
      × (is_safe_ip (v6 (65535 * 2 ^ 32 + ip)) ≡ not (is_blocked ip))
unfolding is_safe_ip is_private_mapped_v6
is_safe_ip-is_blocked ip h = (
  is_safe_v4_lem ip,
  let guards = mapped_guards ip h in
      rw
        (
          guards.0,
          guards.1.0,
          guards.1.1,
          to_ipv4_mapped_lem ip h,
          is_private_mapped_v6,
          double_negation (is_safe_v4 ip),
        )
        (is_safe_v4_lem ip),
)

module _ (ip : ℕ) (h : is_private (v6 ip) ≡ true) where
  local_guards :
      (nat_eqb ip 1 ≡ false)
      × ((nat_eqb (ip / 2 ^ 120) 255 ≡ false)
          × ((nat_eqb ip 0 ≡ false) × (nat_eqb (ip / 2 ^ 32) 65535 ≡ false)))
  unfolding is_private
  local_guards = (ground arith, (ground arith, (ground arith, ground arith)))

-- Every IPv6 address that is unique local (fc00::/7) or link-local (fe80::/10) is let through, although
-- such addresses belong to internal networks.
pub is_safe_ip-local_v6 : (ip : ℕ) → is_private (v6 ip) ≡ true → is_safe_ip (v6 ip) ≡ true
unfolding is_safe_ip is_private_mapped_v6 to_ipv4_mapped
is_safe_ip-local_v6 ip h =
    let guards = local_guards ip h in
    rw (guards.0, guards.1.0, guards.1.1.0, guards.1.1.1, to_ipv4_mapped, is_private_mapped_v6) refl
