-- ===== src/Cron/Triggers/Guardrails.antt =====
-- What a routine that obeys the guardrails of crates/frankclaw-cron/src/triggers.rs may do.
use frankclaw.Prelude.{
  ℕ, ◌+◌, ◌≤◌, ◌<◌, ◌^◌, ◌≡◌, ◌↔◌, Bool, some, List, [], ◌∷◌, arith, Option-cases, inl, inr,
  from_secs,
}
use frankclaw.Cron.Triggers.{
  TriggerGuardrails, TriggerState, default_state, allowed, blocked, check_cooldown, can_fire,
  record_fire, record_completion,
}

-- A request to fire, with the instants of the check and of the record, and the end of an execution.
pub data Event : Type 0 where
  fire : ℕ → ℕ → Event
  completion : Bool → Event

module _ (guardrails : TriggerGuardrails) where
  unfoldable pub step : TriggerState → Event → TriggerState
  step s (fire asked fired) = elim (can_fire s guardrails asked) [
    | allowed ↦ record_fire fired s
    | blocked reason ↦ s
  ]
  step s (completion success) = record_completion success s

  unfoldable pub run : TriggerState → List Event → TriggerState
  run s [] = s
  run s (e ∷ es) = run (step s e) es

  -- The routine may fire exactly when fewer executions are active than the limit, and, if it has fired,
  -- the cooldown has passed since.
  can_fire_iff :
      (s : TriggerState) (now : ℕ)
      → (can_fire s guardrails now ≡ allowed) ↔ (
          (s.active_count < guardrails.max_concurrent)
          × ((last : ℕ)
              → s.last_fired_at ≡ some last
              → last + from_secs guardrails.cooldown_secs ≤ now))
  unfolding can_fire check_cooldown
  can_fire_iff s now = elim (Option-cases s.last_fired_at) [
    | inl never ↦ rw never (λ h. (ground arith, λ last e. ground arith), λ h. ground arith)
    | inr (last, fired) ↦ (
      λ h. (ground arith, λ other e. ground arith),
      λ (few, cool). ground (arith, cool last fired),
    )
  ]

  step-active :
      (s : TriggerState) (e : Event)
      → guardrails.max_concurrent < 2 ^ 32
      → s.active_count ≤ guardrails.max_concurrent
      → (step s e).active_count ≤ guardrails.max_concurrent
  unfolding step can_fire record_fire record_completion check_cooldown
  step-active s (fire asked fired) fits h = ground arith
  step-active s (completion success) fits h = ground arith

  run-active_from :
      (s : TriggerState) (es : List Event)
      → guardrails.max_concurrent < 2 ^ 32
      → s.active_count ≤ guardrails.max_concurrent
      → (run s es).active_count ≤ guardrails.max_concurrent
  unfolding run
  run-active_from s [] fits h = h
  run-active_from s (e ∷ es) fits h = run-active_from (step s e) es fits (step-active s e fits h)

  -- A routine that fires only when it may has at most `max_concurrent` (a number that fits u32) active
  -- executions, after any requests and completions.
  run-active :
      (es : List Event)
      → guardrails.max_concurrent < 2 ^ 32
      → (run default_state es).active_count ≤ guardrails.max_concurrent
  run-active es fits = run-active_from default_state es fits (omega arith)
