-- ===== src/Models/CostGuard/Tests.antt =====
-- A guard whose amounts are whole cents.
use frankclaw.Prelude.{
  ℕ, ◌+◌, ◌*◌, ◌≡◌, ◌↔◌, refl, String, false, some, [], ◌∷◌, arith, length, filter, lookup, insert,
}
use frankclaw.Models.CostGuard.{
  Usd, CostGuardConfig, CostGuard, daily_budget, refused, allowed, new, check_allowed,
  record_llm_call, prune,
}
use frankclaw.Models.CostGuard.Window.{IsBelow, is_recent, check_allowed_iff}
use frankclaw.Models.CostGuard.Guarded.{Call, guarded_call, guarded_calls, budget_never_resets}

abbrev cents : Usd
cents = record {
  Amount = ℕ;
  zero_usd = 0;
  plus = λ a b. a + b;
  times = λ a n. a * n;
  to_cents = λ a. a;
}

abbrev rates : String → ℕ × ℕ
rates model = (1, 2)

abbrev config : CostGuardConfig
config = record { max_cost_per_day_cents = some 100; max_actions_per_hour = some 2 }

-- On day 1 a call of 120 cents, on day 2 another.
abbrev first_day : Call
first_day = record {
  model = "gpt-5";
  input_tokens = 20;
  output_tokens = 50;
  asked_at = 10;
  today = 1;
  recorded_at = 11;
}

abbrev next_day : Call
next_day = record first_day { asked_at = 90000000000000; today = 2; recorded_at = 90000000000001 }

abbrev spent : CostGuard cents
spent = guarded_calls cents rates (new cents config 1) (first_day ∷ [])

spent_refused : (check_allowed cents spent 12).0 ≡ refused (daily_budget 120 100)
unfolding guarded_calls guarded_call check_allowed record_llm_call prune new lookup insert
spent_refused = refl

budget_never_resets_example :
    (guarded_calls cents rates (check_allowed cents spent 12).1 (next_day ∷ [])
      ≡ (check_allowed cents spent 12).1)
    × ((s l : ℕ) × ((check_allowed cents
            (guarded_calls cents rates (check_allowed cents spent 12).1 (next_day ∷ []))
            90000000000002).0
          ≡ refused (daily_budget s l)))
budget_never_resets_example =
    budget_never_resets cents rates spent 12 120 100 (next_day ∷ []) 90000000000002 spent_refused

abbrev busy : CostGuard cents
busy = record (new cents config 1) { action_window = 5 ∷ 3600000000007 ∷ [] }

check_allowed_iff_example : ((check_allowed cents busy 3600000000008).0 ≡ allowed) ↔ (
    (busy.budget_exceeded ≡ false)
    × IsBelow (cents.to_cents busy.daily_cost.total_usd) busy.config.max_cost_per_day_cents
    × IsBelow
        (length (filter (is_recent 3600000000008) busy.action_window))
        busy.config.max_actions_per_hour)
check_allowed_iff_example = check_allowed_iff cents busy 3600000000008 ((omega arith, tt), (tt, tt))
