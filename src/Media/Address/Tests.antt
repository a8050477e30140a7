-- ===== src/Media/Address/Tests.antt =====
-- Addresses of crates/frankclaw-core/src/media.rs.
use frankclaw.Prelude.{◌+◌, ◌*◌, ◌^◌, ◌≡◌, refl, true, not, arith}
use frankclaw.Gateway.Net.{v4, v6, is_private}
use frankclaw.Media.Address.{is_safe_ip}
use frankclaw.Media.Address.Ranges.{is_blocked, is_safe_ip-is_blocked, is_safe_ip-local_v6}

-- 10.0.0.1.
is_safe_ip-is_blocked_example :
    (is_safe_ip (v4 167772161) ≡ not (is_blocked 167772161))
    × (is_safe_ip (v6 (65535 * 2 ^ 32 + 167772161)) ≡ not (is_blocked 167772161))
is_safe_ip-is_blocked_example = is_safe_ip-is_blocked 167772161 (omega arith)

-- 240.0.0.1 and 0.0.0.1.
reserved_passes : (is_safe_ip (v4 4026531841) ≡ true) × (is_safe_ip (v4 1) ≡ true)
unfolding is_safe_ip
reserved_passes = (refl, refl)

-- fd00::1.
is_safe_ip-local_v6_example : is_safe_ip (v6 (253 * 2 ^ 120 + 1)) ≡ true
unfolding is_private
is_safe_ip-local_v6_example = is_safe_ip-local_v6 (253 * 2 ^ 120 + 1) refl
