-- ===== src/Prelude/Words.antt =====
-- Machine integers. The release profile (Cargo.toml) leaves overflow checks off, so `+` wraps.
use Prim.Native.Nat.{ℕ, ◌+◌, ◌-◌, ◌*◌, ◌%◌, ◌^◌, min}

-- `a + b` on u32.
abbrev pub add_u32 : ℕ → ℕ → ℕ
add_u32 a b = (a + b) % 2 ^ 32

-- `a + b` on u64.
abbrev pub add_u64 : ℕ → ℕ → ℕ
add_u64 a b = (a + b) % 2 ^ 64

-- `u64::MAX`.
abbrev pub max_u64 : ℕ
max_u64 = 2 ^ 64 - 1

-- `a.saturating_add(b)` on u64.
abbrev pub saturating_add_u64 : ℕ → ℕ → ℕ
saturating_add_u64 a b = min (a + b) max_u64

-- Instants and durations are counted in nanoseconds, the resolution of `std::time::Duration`.
abbrev pub from_secs : ℕ → ℕ
from_secs s = s * 1000000000
