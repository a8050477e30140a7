-- ===== src/Cron/Triggers.antt =====
-- The guardrails of crates/frankclaw-cron/src/triggers.rs. A `DateTime<Utc>` is a number of
-- nanoseconds; a cooldown is one that `chrono::Duration::seconds` takes.
pub mod Guardrails
use Prim.Native.String.{◌++◌}
use frankclaw.Prelude.{
  ℕ, ◌+◌, ◌-◌, ◌/◌, String, Bool, Option, none, some, add_u32, add_u64, from_secs, show, ltb, leb,
  if◌then◌else◌,
}
use mathlib.Core.Option

pub record TriggerGuardrails : Type 0 where
  pub cooldown_secs : ℕ  -- u64
  pub max_concurrent : ℕ  -- u32
  pub dedup_window_secs : Option ℕ

-- `TriggerGuardrails::default`.
abbrev pub default_guardrails : TriggerGuardrails
default_guardrails = record { cooldown_secs = 300; max_concurrent = 1; dedup_window_secs = none }

unfoldable pub cooldown : TriggerGuardrails → ℕ
cooldown guardrails = from_secs guardrails.cooldown_secs

unfoldable pub dedup_window : TriggerGuardrails → Option ℕ
dedup_window guardrails = Option.map from_secs guardrails.dedup_window_secs

pub record TriggerState : Type 0 where
  pub last_fired_at : Option ℕ
  pub active_count : ℕ  -- u32
  pub fire_count : ℕ  -- u64
  pub consecutive_failures : ℕ  -- u32
  pub last_event_hash : Option ℕ

-- `TriggerState::default`.
abbrev pub default_state : TriggerState
default_state = record {
  last_fired_at = none;
  active_count = 0;
  fire_count = 0;
  consecutive_failures = 0;
  last_event_hash = none;
}

pub data FireCheck : Type 0 where
  allowed : FireCheck
  blocked : String → FireCheck

-- The check of the cooldown: `now - last_fired < cooldown` on signed durations.
check_cooldown : Option ℕ → ℕ → ℕ → FireCheck
check_cooldown none cooldown now = allowed
check_cooldown (some last_fired) cooldown now =
    if ltb now (last_fired + cooldown)
    then blocked
        ("cooldown active (" ++ show ((last_fired + cooldown - now) / 1000000000) ++ "s remaining)")
    else allowed

unfoldable pub can_fire : TriggerState → TriggerGuardrails → ℕ → FireCheck
unfolding check_cooldown
can_fire s guardrails now =
    if leb guardrails.max_concurrent s.active_count
    then blocked (
        "max concurrent executions reached ("
        ++ show s.active_count
        ++ "/"
        ++ show guardrails.max_concurrent
        ++ ")")
    else check_cooldown s.last_fired_at (from_secs guardrails.cooldown_secs) now

unfoldable pub record_fire : ℕ → TriggerState → TriggerState
record_fire now s = record s {
  last_fired_at = some now;
  active_count = add_u32 s.active_count 1;
  fire_count = add_u64 s.fire_count 1;
}

unfoldable pub record_completion : Bool → TriggerState → TriggerState
record_completion success s = record s {
  active_count = s.active_count - 1;
  consecutive_failures = if success then 0 else add_u32 s.consecutive_failures 1;
}
