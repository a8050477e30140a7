-- ===== src/Cron/Service/Calls.antt =====
-- The steps of crates/frankclaw-cron/src/service.rs in an order, and how many runs of one job they leave in flight.
use frankclaw.Prelude.{
  ℕ, ◌+◌, ◌-◌, ◌<◌, ◌≡◌, String, string_eq, Bool, true, false, Option, none, some, List, [], ◌∷◌,
  ◌==◌, any, Map, lookup, if◌then◌else◌,
}
use frankclaw.Cron.Service.{
  CronJob, CronService, ParsedSchedule, Outcome, is_running, tick, finish, remove_id, add,
  sync_jobs,
}

pub data Call : Type 0 where
  ticks : ℕ → Call
  ends : CronJob → ℕ → ℕ → Outcome → Call
  adds : CronJob → Call
  removes : String → Call
  syncs : Map String CronJob → List CronJob → Call

-- How many of the started jobs have the identifier.
unfoldable pub started : String → List CronJob → ℕ
started id [] = 0
started id (job ∷ jobs) = let rest = started id jobs in if job.id == id then rest + 1 else rest

-- Whether the last run of the job that is held under `id` is marked as running.
unfoldable pub runs_at : String → Map String CronJob → Bool
runs_at id jobs = elim (lookup id jobs) [ none ↦ false | some job ↦ is_running job ]

-- Only a run in flight ends, and while one is the job is not added anew, nor removed, nor left out of
-- the configuration, and a synchronisation that is written has read the job as running.
abbrev pub IsOrderly : String → ℕ → Call → Type 0
IsOrderly id n (ticks now) = Unit
IsOrderly id n (ends job started_at finished_at outcome) = job.id ≡ id → 0 < n
IsOrderly id n (adds job) = job.id ≡ id → n ≡ 0
IsOrderly id n (removes other) = other ≡ id → n ≡ 0
IsOrderly id n (syncs existing jobs) =
    0 < n → (any (λ job. job.id == id) jobs ≡ true) × (runs_at id existing ≡ true)

module _ {Schedule : Type 0} (parse : String → ParsedSchedule Schedule)
    (after : Schedule → ℕ → Option ℕ) (is_whitespace : ℕ → Bool) where
  unfoldable pub step : CronService → Call → CronService
  step c (ticks now) = (tick parse after now c).1
  step c (ends job started_at finished_at outcome) = finish job started_at finished_at outcome c
  step c (adds job) = (add parse is_whitespace job c).1
  step c (removes id) = remove_id id c
  step c (syncs existing jobs) = (sync_jobs parse existing jobs c).1

  -- The runs of `id` in flight after a call, when there were `n` before.
  unfoldable pub flights : String → ℕ → CronService → Call → ℕ
  flights id n c (ticks now) = n + started id (tick parse after now c).0
  flights id n c (ends job started_at finished_at outcome) = if job.id == id then n - 1 else n
  flights id n c _ = n

  unfoldable pub run : CronService → List Call → CronService
  run c [] = c
  run c (call ∷ calls) = run (step c call) calls

  unfoldable pub flights_after : String → ℕ → CronService → List Call → ℕ
  flights_after id n c [] = n
  flights_after id n c (call ∷ calls) = flights_after id (flights id n c call) (step c call) calls

  abbrev pub AreOrderly : String → ℕ → CronService → List Call → Type 0
  AreOrderly id n c [] = Unit
  AreOrderly id n c (call ∷ calls) =
      IsOrderly id n call × AreOrderly id (flights id n c call) (step c call) calls
