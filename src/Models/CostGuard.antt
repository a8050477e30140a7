-- ===== src/Models/CostGuard.antt =====
-- crates/frankclaw-models/src/cost_guard.rs. The operations on `f64` that the guard uses are
-- arguments, and so are the rates of crates/frankclaw-models/src/costs.rs. The four mutexes are
-- taken one after the other; a call of a method is one step. Instants are nanoseconds from the
-- earliest that `checked_sub` yields, and dates are numbers.
pub mod Window
pub mod Guarded
mod Tests
use Prim.Native.String
use frankclaw.Prelude.{
  ℕ, ◌-◌, String, Bool, true, false, Option, none, some, List, [], ◌∷◌, ◌++◌, not, nat_eqb, add_u64,
  from_secs, length, ltb, leb, if◌then◌else◌, Map, lookup, insert, string_eq,
}

pub record CostGuardConfig : Type 0 where
  pub max_cost_per_day_cents : Option ℕ  -- u64
  pub max_actions_per_hour : Option ℕ  -- u64

pub data CostLimitExceeded : Type 0 where
  daily_budget : ℕ → ℕ → CostLimitExceeded
  hourly_rate : ℕ → ℕ → CostLimitExceeded

-- `Result<(), CostLimitExceeded>`.
pub data Check : Type 0 where
  allowed : Check
  refused : CostLimitExceeded → Check

-- The operations on `f64`; `to_cents` is the function of that name.
pub record Usd : Type 1 where
  pub Amount : Type 0
  pub zero_usd : Amount
  pub plus : Amount → Amount → Amount
  pub times : Amount → ℕ → Amount
  pub to_cents : Amount → ℕ

module _ (f64 : Usd) where
  pub record ModelTokens : Type 0 where
    pub input_tokens : ℕ  -- u64
    pub output_tokens : ℕ  -- u64
    pub cost_usd : f64.Amount

  pub record DailyCost : Type 0 where
    pub total_usd : f64.Amount
    pub reset_date : ℕ

  pub record CostGuard : Type 0 where
    pub config : CostGuardConfig
    pub daily_cost : DailyCost
    pub action_window : List ℕ
    pub budget_exceeded : Bool
    pub model_tokens : Map String ModelTokens

  -- `CostGuard::new`.
  unfoldable pub new : CostGuardConfig → ℕ → CostGuard
  new config today = record {
    config = config;
    daily_cost = record { total_usd = f64.zero_usd; reset_date = today };
    action_window = [];
    budget_exceeded = false;
    model_tokens = [];
  }

-- `while window.front().is_some_and(|t| *t < cutoff)`.
unfoldable pub pop_before : ℕ → List ℕ → List ℕ
pop_before cutoff [] = []
pop_before cutoff (t ∷ ts) =
    let rest = pop_before cutoff ts in if ltb t cutoff then rest else t ∷ ts

-- `Instant::now().checked_sub(Duration::from_secs(3600))`, and the loop where there is a cutoff.
unfoldable pub prune : ℕ → List ℕ → List ℕ
unfolding pop_before
prune now window =
    if leb (from_secs 3600) now then pop_before (now - from_secs 3600) window else window

module _ (f64 : Usd) where
  -- The check of the hourly rate, the last of the three.
  check_rate : CostGuard f64 → ℕ → Check × CostGuard f64
  unfolding prune
  check_rate g now = elim g.config.max_actions_per_hour [
    | none ↦ (allowed, g)
    | some limit ↦
        let window = prune now g.action_window in
        let pruned = record g { action_window = window } in
        if leb limit (length window)
        then (refused (hourly_rate (length window) limit), pruned)
        else (allowed, pruned)
  ]

  -- `unwrap_or(0)`.
  abbrev limit_or_zero : Option ℕ → ℕ
  limit_or_zero none = 0
  limit_or_zero (some limit) = limit

  unfoldable pub check_allowed : CostGuard f64 → ℕ → Check × CostGuard f64
  unfolding check_rate
  check_allowed g now =
      let spent_cents = f64.to_cents g.daily_cost.total_usd in
      if g.budget_exceeded
      then (refused (daily_budget spent_cents (limit_or_zero g.config.max_cost_per_day_cents)), g)
      else elim g.config.max_cost_per_day_cents [
        | none ↦ check_rate g now
        | some limit_cents ↦
            if leb limit_cents spent_cents
            then (
              refused (daily_budget spent_cents limit_cents),
              record g { budget_exceeded = true },
            )
            else check_rate g now
      ]

  -- The cost of the day, reset on another day.
  add_cost : f64.Amount → ℕ → DailyCost f64 → DailyCost f64
  add_cost cost today daily =
      if nat_eqb today daily.reset_date
      then record daily { total_usd = f64.plus daily.total_usd cost }
      else record { total_usd = f64.plus f64.zero_usd cost; reset_date = today }

  -- The flag after a call: reset on another day, and set when the limit is reached.
  exceeded_after : CostGuardConfig → ℕ → DailyCost f64 → DailyCost f64 → Bool → Bool
  exceeded_after config today old new_cost flag =
      let kept = if nat_eqb today old.reset_date then flag else false in
      elim config.max_cost_per_day_cents [
        | none ↦ kept
        | some limit_cents ↦
            if leb limit_cents (f64.to_cents new_cost.total_usd) then true else kept
      ]

  -- `entry(model).or_default()` and what is added to it.
  add_usage : f64.Amount → ℕ → ℕ → Option (ModelTokens f64) → ModelTokens f64
  add_usage cost input_tokens output_tokens none = record {
    input_tokens = input_tokens;
    output_tokens = output_tokens;
    cost_usd = f64.plus f64.zero_usd cost;
  }
  add_usage cost input_tokens output_tokens (some entry) = record {
    input_tokens = add_u64 entry.input_tokens input_tokens;
    output_tokens = add_u64 entry.output_tokens output_tokens;
    cost_usd = f64.plus entry.cost_usd cost;
  }

  -- `rates` gives the two rates of a model. The date and the instant are read from the clock.
  unfoldable pub record_llm_call :
      (String → f64.Amount × f64.Amount)
      → String
      → ℕ
      → ℕ
      → ℕ
      → ℕ
      → CostGuard f64
      → f64.Amount × CostGuard f64
  unfolding add_cost exceeded_after add_usage
  record_llm_call rates model input_tokens output_tokens today now g =
      let (input_rate, output_rate) = rates model in
      let cost =
        f64.plus (f64.times input_rate input_tokens) (f64.times output_rate output_tokens) in
      let daily = add_cost cost today g.daily_cost in
      (
        cost,
        record g {
          daily_cost = daily;
          budget_exceeded = exceeded_after g.config today g.daily_cost daily g.budget_exceeded;
          action_window = g.action_window ++ now ∷ [];
          model_tokens =
              insert model (add_usage cost input_tokens output_tokens (lookup model g.model_tokens))
                g.model_tokens;
        },
      )

  -- `daily_spend`.
  unfoldable pub daily_spend : CostGuard f64 → ℕ → f64.Amount
  daily_spend g today =
      if nat_eqb today g.daily_cost.reset_date then g.daily_cost.total_usd else f64.zero_usd

  -- `actions_this_hour`.
  unfoldable pub actions_this_hour : CostGuard f64 → ℕ → ℕ × CostGuard f64
  unfolding prune
  actions_this_hour g now =
      let window = prune now g.action_window in (length window, record g { action_window = window })

  unfoldable pub model_usage : CostGuard f64 → Map String (ModelTokens f64)
  model_usage g = g.model_tokens
