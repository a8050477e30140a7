-- ===== src/Cron/Service/Flights.antt =====
-- Runs of one job of crates/frankclaw-cron/src/service.rs at the same time.
use frankclaw.Prelude.{
  ℕ, ◌+◌, ◌-◌, ◌<◌, ◌≤◌, ◌≡◌, refl, String, string_eq, Bool, true, false, Option, some, Bool-cases,
  Option-cases, inl, inr, ◌⊎◌, List, [], ◌∷◌, ◌==◌, any, Map, lookup, insert, remove, modify,
  Distinct, Distinct-insert, Distinct-remove, Distinct-modify, Everywhere-empty, Everywhere-insert,
  Everywhere-remove, Everywhere-modify, lookup-insert, lookup-remove, lookup-modify, if◌then◌else◌,
  arith,
}
use frankclaw.Core.Error.{Result-cases}
use frankclaw.Cron.Service.{
  CronJob, CronService, ParsedSchedule, RunLog, is_blank, is_running, start_run, is_due, visit_jobs,
  tick, finish, finished_log, remove_id, add, sync_from, sync_jobs, new,
}
use frankclaw.Cron.Service.Calls.{
  Call, ticks, ends, adds, removes, syncs, started, runs_at, step, flights, IsOrderly, run,
  flights_after, AreOrderly,
}
use frankclaw.Cron.Service.Syncs.{Parsed-cases, sync_from-IsTaken}
use frankclaw.Cron.Service.Ticks.{
  jobs-save_jobs, AreKeyed, lookup-visit_jobs, Distinct-visit_jobs, started-visit_jobs,
  visit_jobs-AreKeyed,
}

-- `n` runs of `id` are in flight: none, or one, and then the job is marked as running.
record IsSingle (id : String) (n : ℕ) (jobs : Map String CronJob) : Type 0 where
  distinct : Distinct jobs
  keyed : AreKeyed jobs
  single : (n ≡ 0) ⊎ ((n ≡ 1) × (runs_at id jobs ≡ true))

module _ {Schedule : Type 0} (parse : String → ParsedSchedule Schedule)
    (after : Schedule → ℕ → Option ℕ) (is_whitespace : ℕ → Bool) where
  -- A job that is marked as running is not started.
  is_due-running :
      (now : ℕ) (job : CronJob) → is_running job ≡ true → is_due parse after now job ≡ false
  unfolding is_due
  is_due-running now job h = ground arith

  is_running-start_run : (now : ℕ) (job : CronJob) → is_running (start_run now job) ≡ true
  unfolding is_running start_run
  is_running-start_run now job = refl

  visit_jobs-IsSingle :
      (id : String) (n now : ℕ) (m : Map String CronJob)
      → IsSingle id n m
      → IsSingle id
          (n + started id (visit_jobs parse after now m).0)
          (visit_jobs parse after now m).1
  unfolding runs_at
  visit_jobs-IsSingle id n now m h = record {
    distinct = Distinct-visit_jobs parse after now m h.distinct;
    keyed = visit_jobs-AreKeyed parse after now m h.keyed;
    single = elim (Option-cases (lookup id m)) [
      | inl absent ↦ ground (
        arith,
        absent,
        h.single,
        started-visit_jobs parse after now id m h.distinct h.keyed,
        lookup-visit_jobs parse after now id m,
      )
      | inr (job, found) ↦ ground (
        arith,
        found,
        h.single,
        started-visit_jobs parse after now id m h.distinct h.keyed,
        lookup-visit_jobs parse after now id m,
        is_due-running now job,
        is_running-start_run now job,
      )
    ];
  }

  finish-IsSingle :
      (id : String) (n : ℕ) (job : CronJob) (log : RunLog) (m : Map String CronJob)
      → (job.id ≡ id → 0 < n)
      → IsSingle id n m
      → IsSingle id
          (if job.id == id then n - 1 else n)
          (modify job.id (λ stored. record stored { last_run = some log }) m)
  unfolding runs_at
  finish-IsSingle id n job log m due h = record {
    distinct = Distinct-modify job.id _ m h.distinct;
    keyed = Everywhere-modify _ job.id _ m (λ v q same. same) h.keyed;
    single = ground (
      arith,
      due,
      h.single,
      string_eq.same_iff job.id id,
      lookup-modify job.id id (λ stored. record stored { last_run = some log }) m,
    );
  }

  insert-IsSingle :
      (id : String) (n : ℕ) (job : CronJob) (m : Map String CronJob)
      → (job.id ≡ id → n ≡ 0)
      → IsSingle id n m
      → IsSingle id n (insert job.id job m)
  unfolding runs_at
  insert-IsSingle id n job m idle h = record {
    distinct = Distinct-insert job.id job m h.distinct;
    keyed = Everywhere-insert _ job.id job m refl h.keyed;
    single =
        ground (arith, idle, h.single, string_eq.same_iff job.id id, lookup-insert job.id id job m);
  }

  remove-IsSingle :
      (id other : String) (n : ℕ) (m : Map String CronJob)
      → (other ≡ id → n ≡ 0)
      → IsSingle id n m
      → IsSingle id n (remove other m)
  unfolding runs_at
  remove-IsSingle id other n m idle h = record {
    distinct = Distinct-remove other m h.distinct;
    keyed = Everywhere-remove _ other m h.keyed;
    single = ground (arith, idle, h.single, string_eq.same_iff other id, lookup-remove other id m);
  }

  sync_jobs-IsSingle :
      (id : String) (n : ℕ) (existing : Map String CronJob) (jobs : List CronJob) (c : CronService)
      → (0 < n → (any (λ job. job.id == id) jobs ≡ true) × (runs_at id existing ≡ true))
      → IsSingle id n c.jobs
      → IsSingle id n (sync_jobs parse existing jobs c).1.jobs
  unfolding sync_jobs
  sync_jobs-IsSingle id n existing jobs c held h =
      elim (Result-cases (sync_from parse existing jobs [])) [
        | inr (e, bad) ↦ rw (bad, sync_jobs) h
        | inl (m, good) ↦
            let t =
              sync_from-IsTaken parse id existing jobs [] m false
                (record {
                  distinct = tt;
                  keyed = Everywhere-empty _;
                  taken = λ r s. absurd (ground (arith, s));
                })
                good in
            rw (good, sync_jobs)
              (rw (jobs-save_jobs (record c { jobs = m })) (record {
                distinct = t.distinct;
                keyed = t.keyed;
                single = ground (arith, held, h.single, t.taken);
              }))
      ]

  add-IsSingle :
      (id : String) (n : ℕ) (job : CronJob) (c : CronService)
      → (job.id ≡ id → n ≡ 0)
      → IsSingle id n c.jobs
      → IsSingle id n (add parse is_whitespace job c).1.jobs
  unfolding add
  add-IsSingle id n job c idle h = elim (Parsed-cases (parse job.schedule)) [
    | inr (e, bad) ↦ rw (bad, add) h
    | inl (schedule, good) ↦ elim (Bool-cases (is_blank is_whitespace job.prompt)) [
      | inl blank ↦ rw (good, blank, add) h
      | inr prompted ↦ elim (Bool-cases (is_blank is_whitespace job.id)) [
        | inl blank ↦ rw (good, prompted, blank, add) h
        | inr named ↦
            rw (good, prompted, named, add)
              (rw (jobs-save_jobs (record c { jobs = insert job.id job c.jobs }))
                (insert-IsSingle id n job c.jobs idle h))
      ]
    ]
  ]

  step-IsSingle :
      (id : String) (n : ℕ) (c : CronService) (call : Call)
      → IsOrderly id n call
      → IsSingle id n c.jobs
      → IsSingle id
          (flights parse after is_whitespace id n c call)
          (step parse after is_whitespace c call).jobs
  unfolding step flights tick finish add remove_id
  step-IsSingle id n c (ticks now) due h =
      rw (jobs-save_jobs (record c { jobs = (visit_jobs parse after now c.jobs).1 }))
        (visit_jobs-IsSingle id n now c.jobs h)
  step-IsSingle id n c (ends job started_at finished_at outcome) due h =
      let log = finished_log job started_at finished_at outcome in
      rw
        (jobs-save_jobs (record c {
          jobs = modify job.id (λ stored. record stored { last_run = some log }) c.jobs;
        }))
        (finish-IsSingle id n job log c.jobs due h)
  step-IsSingle id n c (adds job) due h = add-IsSingle id n job c due h
  step-IsSingle id n c (removes other) due h =
      rw (jobs-save_jobs (record c { jobs = remove other c.jobs }))
        (remove-IsSingle id other n c.jobs due h)
  step-IsSingle id n c (syncs existing jobs) due h = sync_jobs-IsSingle id n existing jobs c due h

  run-IsSingle :
      (id : String) (n : ℕ) (c : CronService) (calls : List Call)
      → AreOrderly parse after is_whitespace id n c calls
      → IsSingle id n c.jobs
      → IsSingle id
          (flights_after parse after is_whitespace id n c calls)
          (run parse after is_whitespace c calls).jobs
  unfolding run flights_after
  run-IsSingle id n c [] due h = h
  run-IsSingle id n c (call ∷ calls) due h =
      run-IsSingle id (flights parse after is_whitespace id n c call)
        (step parse after is_whitespace c call) calls due.1 (step-IsSingle id n c call due.0 h)

  -- However ticks, ends of runs, additions, removals and the writes of synchronisations are interleaved
  -- on a new service, a job never has two runs in flight, if only runs in flight end, and while a run of
  -- the job is in flight the job is not added anew, nor removed, nor left out of a synchronisation that is
  -- written, nor written by one that had read the jobs, at any earlier moment, with the job not running.
  pub flights_after-le-1 :
      (id : String) (calls : List Call)
      → AreOrderly parse after is_whitespace id 0 new calls
      → flights_after parse after is_whitespace id 0 new calls ≤ 1
  unfolding new
  flights_after-le-1 id calls due =
      let h =
        run-IsSingle id 0 new calls due
          (record { distinct = tt; keyed = Everywhere-empty _; single = inl refl }) in
      ground (arith, h.single)
