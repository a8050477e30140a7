-- ===== src/Gateway/WebhookLimiter.antt =====
-- `check_rate` of crates/frankclaw-gateway/src/webhook_limiter.rs. The concurrency permits are tokio's
-- semaphores and are left out. A call holds the entry of its key, and reads the clock once.
pub mod Window
use frankclaw.Prelude.{
  ℕ, ◌-◌, ◌/◌, String, Bool, true, false, Option, none, some, [], Map, lookup, insert, string_eq,
  add_u32, nat_eqb, leb, if◌then◌else◌,
}

pub record RateCounter : Type 0 where
  pub count : ℕ  -- u32
  pub limit : ℕ  -- u32
  pub window_start : ℕ

pub record WebhookLimiter : Type 0 where
  pub rate_counters : Map String RateCounter

-- `WebhookLimiter::new`.
unfoldable pub new : WebhookLimiter
new = record { rate_counters = [] }

-- `or_insert_with`: the limit is that of the first call.
counter_or_new : ℕ → ℕ → Option RateCounter → RateCounter
counter_or_new limit_per_minute now none = record {
  count = 0;
  limit = limit_per_minute;
  window_start = now;
}
counter_or_new limit_per_minute now (some counter) = counter

-- The reset of a window that is a minute old; `as_secs` cuts off.
reset_counter : ℕ → RateCounter → RateCounter
reset_counter now counter =
    if leb 60 ((now - counter.window_start) / 1000000000)
    then record counter { count = 0; window_start = now }
    else counter

unfoldable pub check_rate : String → ℕ → ℕ → WebhookLimiter → Bool × WebhookLimiter
unfolding counter_or_new reset_counter
check_rate mapping_id limit_per_minute now l =
    if nat_eqb limit_per_minute 0
    then (true, l)
    else let counter =
        reset_counter now
          (counter_or_new limit_per_minute now (lookup mapping_id l.rate_counters)) in
      if leb counter.limit counter.count
      then (false, record l { rate_counters = insert mapping_id counter l.rate_counters })
      else let counted = record counter { count = add_u32 counter.count 1 } in
        (true, record l { rate_counters = insert mapping_id counted l.rate_counters })
