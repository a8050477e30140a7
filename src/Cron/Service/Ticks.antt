-- ===== src/Cron/Service/Ticks.antt =====
-- What a tick of crates/frankclaw-cron/src/service.rs does to one job.
use frankclaw.Prelude.{
  ℕ, ◌≡◌, refl, String, string_eq, Option, none, some, Option-cases, inl, inr, [], ◌∷◌, Map, lookup,
  modify, Distinct, Everywhere, if◌then◌else◌, arith,
}
use frankclaw.Cron.Service.{
  CronJob, CronService, ParsedSchedule, start_run, is_due, visit_jobs, tick, save_jobs, finish,
  finished_log, Outcome,
}
use frankclaw.Cron.Service.Calls.{started}

-- Every job is held under its identifier.
abbrev pub AreKeyed : Map String CronJob → Type 0
AreKeyed jobs = Everywhere (λ k job. job.id ≡ k) jobs

AreKeyed-tail :
    (k : String) (job : CronJob) (m : Map String CronJob)
    → Distinct ((k, job) ∷ m)
    → AreKeyed ((k, job) ∷ m)
    → AreKeyed m
unfolding lookup
AreKeyed-tail k job m d h = record {
  at_key = λ j other q. h.at_key j other (ground (arith, q, d.0, string_eq.same_iff k j));
}

AreKeyed-head :
    (k : String) (job : CronJob) (m : Map String CronJob) → AreKeyed ((k, job) ∷ m) → job.id ≡ k
unfolding lookup
AreKeyed-head k job m h = h.at_key k job (ground (arith, string_eq.same_iff k k))

pub jobs-save_jobs : (c : CronService) → (save_jobs c).jobs ≡ c.jobs
unfolding save_jobs
jobs-save_jobs c = ground arith

pub jobs-finish :
    (job : CronJob) (started_at finished_at : ℕ) (outcome : Outcome) (c : CronService)
    → (finish job started_at finished_at outcome c).jobs
      ≡ modify job.id
          (λ stored. record stored {
            last_run = some (finished_log job started_at finished_at outcome);
          })
          c.jobs
unfolding finish
jobs-finish job started_at finished_at outcome c = jobs-save_jobs _

module _ {Schedule : Type 0} (parse : String → ParsedSchedule Schedule)
    (after : Schedule → ℕ → Option ℕ) where
  -- A job after a tick.
  abbrev visited : ℕ → CronJob → CronJob
  visited now job = if is_due parse after now job then start_run now job else job

  abbrev visited_at : ℕ → Option CronJob → Option CronJob
  visited_at now none = none
  visited_at now (some job) = some (visited now job)

  abbrev started_at : ℕ → Option CronJob → ℕ
  started_at now none = 0
  started_at now (some job) = if is_due parse after now job then 1 else 0

  pub lookup-visit_jobs :
      (now : ℕ) (id : String) (m : Map String CronJob)
      → lookup id (visit_jobs parse after now m).1 ≡ visited_at now (lookup id m)
  unfolding lookup visit_jobs
  lookup-visit_jobs now id [] = refl
  lookup-visit_jobs now id ((k, job) ∷ m) = ground (arith, lookup-visit_jobs now id m)

  pub Distinct-visit_jobs :
      (now : ℕ) (m : Map String CronJob) → Distinct m → Distinct (visit_jobs parse after now m).1
  unfolding visit_jobs
  Distinct-visit_jobs now [] d = tt
  Distinct-visit_jobs now ((k, job) ∷ m) d =
      ground (arith, lookup-visit_jobs now k m, Distinct-visit_jobs now m d.1)

  pub started-visit_jobs :
      (now : ℕ) (id : String) (m : Map String CronJob)
      → Distinct m
      → AreKeyed m
      → started id (visit_jobs parse after now m).0 ≡ started_at now (lookup id m)
  unfolding started visit_jobs lookup start_run
  started-visit_jobs now id [] d h = refl
  started-visit_jobs now id ((k, job) ∷ m) d h = ground (
    arith,
    started-visit_jobs now id m d.1 (AreKeyed-tail k job m d h),
    AreKeyed-head k job m h,
    d.0,
    string_eq.same_iff k id,
  )

  pub visit_jobs-AreKeyed :
      (now : ℕ) (m : Map String CronJob) → AreKeyed m → AreKeyed (visit_jobs parse after now m).1
  unfolding start_run
  visit_jobs-AreKeyed now m h = record {
    at_key = λ j w q. elim (Option-cases (lookup j m)) [
      | inl absent ↦ absurd (ground (arith, absent, q, lookup-visit_jobs now j m))
      | inr (job, found) ↦ ground (arith, found, q, lookup-visit_jobs now j m, h.at_key j job found)
    ];
  }

  pub jobs-tick :
      (now : ℕ) (c : CronService)
      → (tick parse after now c).1.jobs ≡ (visit_jobs parse after now c.jobs).1
  unfolding tick
  jobs-tick now c = jobs-save_jobs _
