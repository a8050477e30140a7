-- ===== src/Models/CostGuard/Window.antt =====
-- What the check of crates/frankclaw-models/src/cost_guard.rs admits.
use frankclaw.Prelude.{
  ℕ, ◌+◌, ◌-◌, ◌≤◌, ◌<◌, ◌≡◌, ◌↔◌, refl, Bool, true, false, Option, none, some, List, [], ◌∷◌,
  arith, Bool-cases, Option-cases, inl, inr, leb, length, filter, from_secs, All,
}
use frankclaw.Models.CostGuard.{
  CostGuard, Usd, allowed, pop_before, prune, check_rate, check_allowed,
}

-- The instants of a window stand in their order.
abbrev pub IsOrdered : List ℕ → Type 0
IsOrdered [] = Unit
IsOrdered (t ∷ ts) = All (λ u. t ≤ u) ts × IsOrdered ts

-- At most an hour old.
abbrev pub is_recent : ℕ → ℕ → Bool
is_recent now t = leb now (t + from_secs 3600)

filter_recent :
    (now t : ℕ) (ts : List ℕ)
    → is_recent now t ≡ true
    → All (λ u. t ≤ u) ts
    → filter (is_recent now) ts ≡ ts
filter_recent now t [] r h = refl
filter_recent now t (u ∷ us) r h = ground (arith, filter_recent now t us r h.1)

pop_before-recent :
    (now : ℕ) (ts : List ℕ)
    → from_secs 3600 ≤ now
    → IsOrdered ts
    → pop_before (now - from_secs 3600) ts ≡ filter (is_recent now) ts
unfolding pop_before
pop_before-recent now [] long o = refl
pop_before-recent now (t ∷ ts) long o = elim (Bool-cases (is_recent now t)) [
  | inl recent ↦ ground (arith, filter_recent now t ts recent o.0)
  | inr old ↦ ground (arith, pop_before-recent now ts long o.1)
]

filter_young : (now : ℕ) (ts : List ℕ) → now < from_secs 3600 → filter (is_recent now) ts ≡ ts
filter_young now [] h = refl
filter_young now (t ∷ ts) h = ground (arith, filter_young now ts h)

-- The loop that pops old instants leaves those of the past hour.
prune-recent : (now : ℕ) (ts : List ℕ) → IsOrdered ts → prune now ts ≡ filter (is_recent now) ts
unfolding prune
prune-recent now ts o = elim (Bool-cases (leb (from_secs 3600) now)) [
  | inl long ↦ rw long (pop_before-recent now ts (ground arith) o)
  | inr short ↦ ground (arith, filter_young now ts (ground arith))
]

-- A limit that is set exceeds a number.
abbrev pub IsBelow : ℕ → Option ℕ → Type 0
IsBelow n none = Unit
IsBelow n (some limit) = n < limit

module _ (f64 : Usd) (g : CostGuard f64) (now : ℕ) where
  check_rate_iff :
      IsOrdered g.action_window
      → ((check_rate f64 g now).0 ≡ allowed)
        ↔ IsBelow (length (filter (is_recent now) g.action_window)) g.config.max_actions_per_hour
  unfolding check_rate
  check_rate_iff o = elim (Option-cases g.config.max_actions_per_hour) [
    | inl unlimited ↦ rw unlimited (λ _. tt, λ _. refl)
    | inr (limit, set) ↦ rw (set, prune-recent now g.action_window o) (ground arith)
  ]

  -- A call is allowed exactly when the budget is not marked as exceeded, what was spent is below the
  -- day's limit if there is one, and the calls recorded in the past hour are fewer than the hourly
  -- limit if there is one, for a window whose instants stand in order.
  pub check_allowed_iff :
      IsOrdered g.action_window
      → ((check_allowed f64 g now).0 ≡ allowed) ↔ (
          (g.budget_exceeded ≡ false)
          × IsBelow (f64.to_cents g.daily_cost.total_usd) g.config.max_cost_per_day_cents
          × IsBelow (length (filter (is_recent now) g.action_window)) g.config.max_actions_per_hour)
  unfolding check_allowed
  check_allowed_iff o =
      let (to, from) = check_rate_iff o in
      elim (Option-cases g.config.max_cost_per_day_cents) [
        | inl unlimited ↦ rw unlimited (ground arith)
        | inr (limit, set) ↦ rw set (ground arith)
      ]

pop_before-le : (cutoff : ℕ) (ts : List ℕ) → length (pop_before cutoff ts) ≤ length ts
unfolding pop_before
pop_before-le cutoff [] = omega arith
pop_before-le cutoff (t ∷ ts) = ground (arith, pop_before-le cutoff ts)

pub prune-le : (now : ℕ) (ts : List ℕ) → length (prune now ts) ≤ length ts
unfolding prune
prune-le now ts = ground (arith, pop_before-le (now - from_secs 3600) ts)

-- What the check does to the window: an allowed call finds room in it, and it never grows.
pub check_allowed-window :
    (f64 : Usd) (g : CostGuard f64) (now limit : ℕ)
    → g.config.max_actions_per_hour ≡ some limit
    → ((check_allowed f64 g now).1.config ≡ g.config)
      × (length (check_allowed f64 g now).1.action_window ≤ length g.action_window)
      × ((check_allowed f64 g now).0 ≡ allowed
          → length (check_allowed f64 g now).1.action_window < limit)
unfolding check_allowed check_rate
check_allowed-window f64 g now limit set = elim (Bool-cases g.budget_exceeded) [
  | inl over ↦ rw over (refl, omega arith, λ h. cc)
  | inr under ↦ elim (Option-cases g.config.max_cost_per_day_cents) [
    | inl unlimited ↦ rw (under, unlimited, set) (ground (arith, prune-le now g.action_window))
    | inr (cents, some_cents) ↦
        rw (under, some_cents, set) (ground (arith, prune-le now g.action_window))
  ]
]
