-- ===== src/Gateway/Net.antt =====
-- `std::net::IpAddr`: an IPv4 address is its 32-bit number, an IPv6 address its 128-bit number.
use frankclaw.Prelude.{ℕ, ◌/◌, ◌^◌, ◌||◌, ◌≡◌, ◌↔◌, Bool, true, false, arith, Eq, nat_eqb}

pub data IpAddr : Type 0 where
  v4 v6 : ℕ → IpAddr

abbrev pub ip_eqb : IpAddr → IpAddr → Bool
ip_eqb (v4 a) (v4 b) = nat_eqb a b
ip_eqb (v6 a) (v6 b) = nat_eqb a b
ip_eqb _ _ = false

pub ip_eqb_iff : (a b : IpAddr) → (ip_eqb a b ≡ true) ↔ (a ≡ b)
ip_eqb_iff a b = ground arith

instance abbrev pub ip_eq : Eq IpAddr
ip_eq = record { same = ip_eqb; same_iff = ip_eqb_iff }

-- `Ipv4Addr::is_private`, `is_link_local`; `Ipv6Addr::is_unique_local`, `is_unicast_link_local`.
unfoldable pub is_private : IpAddr → Bool
is_private (v4 ip) =
    nat_eqb (ip / 2 ^ 24) 10
    || nat_eqb (ip / 2 ^ 20) 2753
    || nat_eqb (ip / 2 ^ 16) 49320
    || nat_eqb (ip / 2 ^ 16) 43518
is_private (v6 ip) = nat_eqb (ip / 2 ^ 121) 126 || nat_eqb (ip / 2 ^ 118) 1018
