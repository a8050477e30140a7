-- ===== src/Gateway/HealthMonitor/Restarts.antt =====
-- How often crates/frankclaw-gateway/src/health_monitor.rs restarts a channel.
use frankclaw.Prelude.{
  ℕ, ◌-◌, ◌≤◌, ◌<◌, ◌≡◌, ◌↔◌, true, some, Option-cases, inl, inr, List, [], ◌∷◌, arith, filter,
  length, length-append, length-filter-le, from_secs,
}
use frankclaw.Gateway.HealthMonitor.{
  ChannelHealth, new, is_cooling, within_hour, try_restart, max_restarts_per_hour,
  restart_cooldown_secs,
}

-- A channel may be restarted exactly when its last restart, if it had one, is at least ten minutes past
-- and its history holds fewer than six restarts of the past hour.
try_restart_iff :
    (h : ChannelHealth) (now : ℕ)
    → ((try_restart now h).0 ≡ true) ↔ (
        ((last : ℕ) → h.last_restart_at ≡ some last → from_secs restart_cooldown_secs ≤ now - last)
        × (length (filter (within_hour now) h.restart_history) < max_restarts_per_hour))
unfolding try_restart is_cooling
try_restart_iff h now = elim (Option-cases h.last_restart_at) [
  | inl never ↦ (λ r. (λ last e. ground arith, ground arith), λ r. ground arith)
  | inr (last, restarted) ↦ (
    λ r. (λ other e. ground arith, ground arith),
    λ (cool, few). ground (arith, cool last restarted),
  )
]

-- The attempts at some instants.
unfoldable pub attempts : ChannelHealth → List ℕ → ChannelHealth
attempts h [] = h
attempts h (t ∷ ts) = attempts (try_restart t h).1 ts

try_restart-history :
    (h : ChannelHealth) (now : ℕ)
    → length h.restart_history ≤ max_restarts_per_hour
    → length (try_restart now h).1.restart_history ≤ max_restarts_per_hour
unfolding try_restart
try_restart-history h now few = ground (
  arith,
  length-filter-le (within_hour now) h.restart_history,
  length-append (filter (within_hour now) h.restart_history) (now ∷ []),
)

attempts-history_from :
    (h : ChannelHealth) (ts : List ℕ)
    → length h.restart_history ≤ max_restarts_per_hour
    → length (attempts h ts).restart_history ≤ max_restarts_per_hour
unfolding attempts
attempts-history_from h [] few = few
attempts-history_from h (t ∷ ts) few =
    attempts-history_from (try_restart t h).1 ts (try_restart-history h t few)

-- The history of a new channel never holds more than six restarts, whenever restarts are attempted.
attempts-history : (ts : List ℕ) → length (attempts new ts).restart_history ≤ max_restarts_per_hour
unfolding new
attempts-history ts = attempts-history_from new ts (omega arith)
