-- ===== src/Gateway/HealthMonitor.antt =====
-- The state per channel of crates/frankclaw-gateway/src/health_monitor.rs, with `HealthStatus` of
-- crates/frankclaw-core/src/channel.rs. The loop that polls the channels is left out.
pub mod Restarts
mod Tests
use frankclaw.Prelude.{
  ℕ, ◌+◌, ◌-◌, String, Bool, true, false, Option, none, some, List, [], ◌∷◌, ◌++◌, not, ◌==◌,
  string_eq, filter, from_secs, length, ltb, leb, if◌then◌else◌,
}

pub data HealthStatus : Type 0 where
  connected : HealthStatus
  degraded disconnected : String → HealthStatus
  not_configured : HealthStatus

-- `RESTART_COOLDOWN_SECS`.
abbrev pub restart_cooldown_secs : ℕ
restart_cooldown_secs = 600

-- `MAX_RESTARTS_PER_HOUR`.
abbrev pub max_restarts_per_hour : ℕ
max_restarts_per_hour = 6

pub record ChannelHealth : Type 0 where
  pub last_status : Option HealthStatus
  pub last_restart_at : Option ℕ
  pub restart_history : List ℕ

-- `ChannelHealth::new`.
unfoldable pub new : ChannelHealth
new = record { last_status = none; last_restart_at = none; restart_history = [] }

-- The check of the cooldown.
is_cooling : Option ℕ → ℕ → Bool
is_cooling none now = false
is_cooling (some last) now = ltb (now - last) (from_secs restart_cooldown_secs)

-- `t > now - 1h`.
abbrev pub within_hour : ℕ → ℕ → Bool
within_hour now t = ltb now (t + from_secs 3600)

unfoldable pub try_restart : ℕ → ChannelHealth → Bool × ChannelHealth
unfolding is_cooling
try_restart now h =
    if is_cooling h.last_restart_at now
    then (false, h)
    else let history = filter (within_hour now) h.restart_history in
      if leb max_restarts_per_hour (length history)
      then (false, record h { restart_history = history })
      else (true, record h { last_restart_at = some now; restart_history = history ++ now ∷ [] })

unfoldable pub status_changed : ChannelHealth → HealthStatus → Bool
status_changed h new_status = elim h.last_status [
  | none ↦ true
  | some connected ↦ elim new_status [ connected ↦ false | _ ↦ true ]
  | some not_configured ↦ elim new_status [ not_configured ↦ false | _ ↦ true ]
  | some (degraded old) ↦ elim new_status [ degraded reason ↦ not (old == reason) | _ ↦ true ]
  | some (disconnected old) ↦ elim new_status [
    | disconnected reason ↦ not (old == reason)
    | _ ↦ true
  ]
]

unfoldable pub is_unhealthy : HealthStatus → Bool
is_unhealthy (disconnected reason) = true
is_unhealthy _ = false
