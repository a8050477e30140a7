-- ===== src/Models/CostGuard/Guarded.antt =====
-- A client of crates/frankclaw-models/src/cost_guard.rs that asks before each call and records the
-- call after it.
use frankclaw.Prelude.{
  ℕ, ◌≤◌, ◌≡◌, refl, ap, ◌∙◌, ◌⊎◌, length-append, String, true, some, List, [], ◌∷◌, arith, inl,
  inr, length,
}
use frankclaw.Models.CostGuard.{
  CostGuardConfig, new, limit_or_zero, CostGuard, CostLimitExceeded, daily_budget, Usd, Check,
  allowed, refused, check_rate, check_allowed, record_llm_call,
}
use frankclaw.Models.CostGuard.Window.{check_allowed-window}

-- A call of a model: when the guard is asked, and what is recorded of it.
pub record Call : Type 0 where
  pub model : String
  pub input_tokens : ℕ
  pub output_tokens : ℕ
  pub asked_at : ℕ
  pub today : ℕ
  pub recorded_at : ℕ

module _ (f64 : Usd) (rates : String → f64.Amount × f64.Amount) where
  unfoldable pub guarded_call : CostGuard f64 → Call → CostGuard f64
  guarded_call g c = elim (check_allowed f64 g c.asked_at).0 [
    | allowed ↦
        (record_llm_call f64 rates c.model c.input_tokens c.output_tokens c.today c.recorded_at
          (check_allowed f64 g c.asked_at).1).1
    | refused e ↦ (check_allowed f64 g c.asked_at).1
  ]

  unfoldable pub guarded_calls : CostGuard f64 → List Call → CostGuard f64
  guarded_calls g [] = g
  guarded_calls g (c ∷ cs) = guarded_calls (guarded_call g c) cs

  exceeded_call : (g : CostGuard f64) (c : Call) → g.budget_exceeded ≡ true → guarded_call g c ≡ g
  unfolding guarded_call check_allowed
  exceeded_call g c h = rw h

  exceeded_calls :
      (g : CostGuard f64) (cs : List Call) → g.budget_exceeded ≡ true → guarded_calls g cs ≡ g
  unfolding guarded_calls
  exceeded_calls g [] h = refl
  exceeded_calls g (c ∷ cs) h = rw (exceeded_call g c h) (exceeded_calls g cs h)

  refused_sets :
      (g : CostGuard f64) (now spent limit : ℕ)
      → (check_allowed f64 g now).0 ≡ refused (daily_budget spent limit)
      → (check_allowed f64 g now).1.budget_exceeded ≡ true
  unfolding check_allowed check_rate
  refused_sets g now spent limit h = ground arith

  exceeded_refuses :
      (g : CostGuard f64) (now : ℕ)
      → g.budget_exceeded ≡ true
      → (s l : ℕ) × ((check_allowed f64 g now).0 ≡ refused (daily_budget s l))
  unfolding check_allowed
  exceeded_refuses g now h = (
    f64.to_cents g.daily_cost.total_usd,
    limit_or_zero f64 g.config.max_cost_per_day_cents,
    rw h refl,
  )

  -- Once a call was refused for the day's budget, a client that asks before each call is refused every
  -- time, whatever the instants and dates: no later call changes the guard, so that the date never
  -- resets it.
  pub budget_never_resets :
      (g : CostGuard f64) (now spent limit : ℕ) (calls : List Call) (later : ℕ)
      → (check_allowed f64 g now).0 ≡ refused (daily_budget spent limit)
      → let after = guarded_calls (check_allowed f64 g now).1 calls in
        (after ≡ (check_allowed f64 g now).1)
        × ((s l : ℕ) × ((check_allowed f64 after later).0 ≡ refused (daily_budget s l)))
  budget_never_resets g now spent limit calls later h =
      let set = refused_sets g now spent limit h in
      let same = exceeded_calls (check_allowed f64 g now).1 calls set in
      (same, rw same (exceeded_refuses (check_allowed f64 g now).1 later set))

  -- There is an hourly limit, and the window holds no more calls.
  abbrev IsWithinRate : ℕ → CostGuard f64 → Type 0
  IsWithinRate limit g =
      (g.config.max_actions_per_hour ≡ some limit) × (length g.action_window ≤ limit)

  Check-cases : (r : Check) → (r ≡ allowed) ⊎ ((e : CostLimitExceeded) × (r ≡ refused e))
  Check-cases allowed = inl refl
  Check-cases (refused e) = inr (e, refl)

  guarded_call-IsWithinRate :
      (limit : ℕ) (g : CostGuard f64) (c : Call)
      → IsWithinRate limit g
      → IsWithinRate limit (guarded_call g c)
  unfolding guarded_call record_llm_call
  guarded_call-IsWithinRate limit g c (set, few) =
      let (config, smaller, room) = check_allowed-window f64 g c.asked_at limit set in
      let same = ap {A = CostGuardConfig} (λ k. k.max_actions_per_hour) config ∙ set in
      elim (Check-cases (check_allowed f64 g c.asked_at).0) [
        | inl pass ↦
            let one_more =
              length-append (check_allowed f64 g c.asked_at).1.action_window (c.recorded_at ∷ []) in
            rw (pass, guarded_call) (same, omega (arith, one_more, room pass))
        | inr (e, fail) ↦ rw (fail, guarded_call) (same, omega (arith, smaller))
      ]

  guarded_calls-IsWithinRate :
      (limit : ℕ) (g : CostGuard f64) (cs : List Call)
      → IsWithinRate limit g
      → IsWithinRate limit (guarded_calls g cs)
  unfolding guarded_calls
  guarded_calls-IsWithinRate limit g [] h = h
  guarded_calls-IsWithinRate limit g (c ∷ cs) h =
      guarded_calls-IsWithinRate limit (guarded_call g c) cs (guarded_call-IsWithinRate limit g c h)

  -- From a new guard with an hourly limit, a client that asks before each call never has more calls in
  -- the guard's window than the limit.
  window_bounded :
      (config : CostGuardConfig) (limit today : ℕ) (calls : List Call)
      → config.max_actions_per_hour ≡ some limit
      → length (guarded_calls (new f64 config today) calls).action_window ≤ limit
  unfolding new
  window_bounded config limit today calls set =
      (guarded_calls-IsWithinRate limit (new f64 config today) calls (set, omega arith)).1
