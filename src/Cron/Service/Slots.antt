-- ===== src/Cron/Service/Slots.antt =====
-- Which runs the ticks of crates/frankclaw-cron/src/service.rs start, and which they never start.
use frankclaw.Prelude.{
  ℕ, ◌+◌, ◌≤◌, ◌≡◌, refl, String, string_eq, Bool, true, false, Option, some, List, [], ◌∷◌, map,
  Map, lookup, Distinct, lookup-modify, arith,
}
use frankclaw.Cron.Service.{
  CronJob, CronService, ParsedSchedule, Outcome, RunLog, is_running, already_started, start_run,
  next_slot, is_due, visit_jobs, tick, save_jobs, finish, finished_log, open_with,
}
use frankclaw.Cron.Service.Calls.{ticks, started, step, flights, flights_after}
use frankclaw.Cron.Service.Ticks.{
  AreKeyed, jobs-finish, jobs-tick, lookup-visit_jobs, Distinct-visit_jobs, started-visit_jobs,
  visit_jobs-AreKeyed,
}

module _ {Schedule : Type 0} (parse : String → ParsedSchedule Schedule)
    (after : Schedule → ℕ → Option ℕ) where
  is_due-started :
      (now slot : ℕ) (job : CronJob) (log : RunLog)
      → next_slot parse after now job ≡ some slot
      → job.last_run ≡ some log
      → slot ≤ log.started_at
      → is_due parse after now job ≡ false
  unfolding is_due is_running already_started
  is_due-started now slot job log s l h = ground arith

  slot-le :
      (now slot : ℕ) (job : CronJob)
      → next_slot parse after now job ≡ some slot
      → is_due parse after now job ≡ true
      → slot ≤ now
  unfolding is_due
  slot-le now slot job s h = ground arith

  -- A slot of the schedule is run once: when a tick starts a job for a slot, and that run has ended,
  -- its start read from the clock at the tick or later, then a later tick that still has the same slot
  -- does not start the job again, whatever the outcome of the run was.
  pub slot_runs_once :
      (c : CronService) (id : String) (job : CronJob) (now slot started_at finished_at later : ℕ)
      (outcome : Outcome)
      → lookup id c.jobs ≡ some job
      → job.id ≡ id
      → is_due parse after now job ≡ true
      → next_slot parse after now job ≡ some slot
      → now ≤ started_at
      → next_slot parse after later job ≡ some slot
      → (ended : CronJob) × ((lookup id
              (finish
                (start_run now job)
                started_at
                finished_at
                outcome
                (tick parse after now c).1).jobs
            ≡ some ended)
          × (is_due parse after later ended ≡ false))
  unfolding next_slot start_run finished_log
  slot_runs_once c id job now slot started_at finished_at later outcome found named due this clock
        same =
      let log = finished_log (start_run now job) started_at finished_at outcome in
      let ended : CronJob = record (start_run now job) { last_run = some log } in
      (
        ended,
        (
          rw
              (
                jobs-finish (start_run now job) started_at finished_at outcome
                    (tick parse after now c).1,
                jobs-tick parse after now c,
              )
              (ground (
                arith,
                found,
                due,
                named,
                string_eq.same_iff job.id id,
                lookup-visit_jobs parse after now id c.jobs,
                lookup-modify job.id id (λ stored. record stored { last_run = some log })
                    (visit_jobs parse after now c.jobs).1,
              )),
          is_due-started later slot ended log same refl
              (omega (arith, clock, slot-le now slot job this due)),
        ),
      )

  is_due-is_running :
      (now : ℕ) (job : CronJob) → is_running job ≡ true → is_due parse after now job ≡ false
  unfolding is_due
  is_due-is_running now job h = ground arith

module _ {Schedule : Type 0} (parse : String → ParsedSchedule Schedule)
    (after : Schedule → ℕ → Option ℕ) (is_whitespace : ℕ → Bool) where
  ticks_never_start :
      (c : CronService) (id : String) (job : CronJob) (n : ℕ) (nows : List ℕ)
      → n ≡ 0
      → Distinct c.jobs
      → AreKeyed c.jobs
      → lookup id c.jobs ≡ some job
      → is_running job ≡ true
      → flights_after parse after is_whitespace id n c (map ticks nows) ≡ 0
  unfolding flights_after flights step
  ticks_never_start c id job n [] none_yet d k found h = none_yet
  ticks_never_start c id job n (now ∷ nows) none_yet d k found h =
      let idle = is_due-is_running parse after now job h in
      let jobs = jobs-tick parse after now c in
      let started_none : started id (visit_jobs parse after now c.jobs).0 ≡ 0 =
        ground (arith, found, idle, started-visit_jobs parse after now id c.jobs d k) in
      ticks_never_start (tick parse after now c).1 id job
        (n + started id (tick parse after now c).0) nows
        (unfold tick in omega (arith, started_none, none_yet))
        (rw jobs (Distinct-visit_jobs parse after now c.jobs d))
        (rw jobs (visit_jobs-AreKeyed parse after now c.jobs k))
        (rw jobs (ground (arith, found, idle, lookup-visit_jobs parse after now id c.jobs))) h

  -- When a tick starts a job of a service that has a file, then a service opened with what that tick
  -- has saved there does not start the job at any of the ticks that follow: a restart between that save and
  -- the end of the run disables the job.
  pub restart_disables :
      (c : CronService) (old : Map String CronJob) (id : String) (job : CronJob) (now : ℕ)
      (nows : List ℕ)
      → c.file ≡ some old
      → Distinct c.jobs
      → AreKeyed c.jobs
      → lookup id c.jobs ≡ some job
      → is_due parse after now job ≡ true
      → (started id (tick parse after now c).0 ≡ 1)
        × ((saved : Map String CronJob) × ((tick parse after now c).1.file ≡ some saved)
            × (flights_after parse after is_whitespace id 0 (open_with saved) (map ticks nows) ≡ 0))
  unfolding open_with tick save_jobs is_running start_run
  restart_disables c old id job now nows file d k found due =
      let jobs = (visit_jobs parse after now c.jobs).1 in
      (
        ground (arith, found, due, started-visit_jobs parse after now id c.jobs d k),
        (
          jobs,
          rw (file, save_jobs) refl,
          ticks_never_start (open_with jobs) id (start_run now job) 0 nows refl
              (Distinct-visit_jobs parse after now c.jobs d)
              (visit_jobs-AreKeyed parse after now c.jobs k)
              (ground (arith, found, due, lookup-visit_jobs parse after now id c.jobs)) refl,
        ),
      )
