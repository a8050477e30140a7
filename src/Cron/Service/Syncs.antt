-- ===== src/Cron/Service/Syncs.antt =====
-- What `sync_jobs` of crates/frankclaw-cron/src/service.rs takes over from the jobs before.
use frankclaw.Prelude.{
  ◌≡◌, refl, sym, ap, String, string_eq, Bool, true, Bool-cases, inl, inr, ◌⊎◌, List, [], ◌∷◌, ◌==◌,
  any, ◌||◌, Map, insert, Distinct, Distinct-insert, Everywhere-insert, lookup-insert, arith,
}
use frankclaw.Core.Error.{ok, err}
use frankclaw.Cron.Service.{
  CronJob, ParsedSchedule, valid, invalid, is_running, with_previous, sync_from,
}
use frankclaw.Cron.Service.Calls.{runs_at}
use frankclaw.Cron.Service.Ticks.{AreKeyed}

pub Parsed-cases :
    {Schedule : Type 0} (p : ParsedSchedule Schedule)
    → ((s : Schedule) × (p ≡ valid s)) ⊎ ((e : String) × (p ≡ invalid e))
Parsed-cases (valid s) = inl (s, refl)
Parsed-cases (invalid e) = inr (e, refl)

module _ {Schedule : Type 0} (parse : String → ParsedSchedule Schedule) where
  -- What the loop of `sync_jobs` has taken over so far.
  pub record IsTaken (id : String) (existing next : Map String CronJob) (seen : Bool) : Type 0 where
    pub distinct : Distinct next
    pub keyed : AreKeyed next
    pub taken : runs_at id existing ≡ true → seen ≡ true → runs_at id next ≡ true

  with_previous-id :
      (existing : Map String CronJob) (job : CronJob)
      → (with_previous parse existing job).id ≡ job.id
  unfolding with_previous
  with_previous-id existing job = ground arith

  with_previous-running :
      (existing : Map String CronJob) (job : CronJob)
      → runs_at job.id existing ≡ true
      → is_running (with_previous parse existing job) ≡ true
  unfolding with_previous runs_at is_running
  with_previous-running existing job h = ground arith

  insert-IsTaken :
      (id : String) (existing next : Map String CronJob) (seen : Bool) (job : CronJob)
      → IsTaken id existing next seen
      → IsTaken id existing
          (insert (with_previous parse existing job).id (with_previous parse existing job) next)
          (seen || (job.id == id))
  unfolding runs_at
  insert-IsTaken id existing next seen job h =
      let kept = with_previous parse existing job in
      record {
        distinct = Distinct-insert kept.id kept next h.distinct;
        keyed = Everywhere-insert _ kept.id kept next refl h.keyed;
        taken = λ r s. elim (Bool-cases (job.id == id)) [
          | inl same ↦ ground (
            arith,
            r,
            same,
            lookup-insert kept.id id kept next,
            with_previous-id existing job,
            with_previous-running existing job,
            string_eq.same_iff job.id id,
          )
          | inr other ↦ ground (
            arith,
            r,
            s,
            other,
            lookup-insert kept.id id kept next,
            with_previous-id existing job,
            h.taken r,
          )
        ];
      }

  pub sync_from-IsTaken :
      (id : String) (existing : Map String CronJob) (jobs : List CronJob)
      (next m : Map String CronJob) (seen : Bool)
      → IsTaken id existing next seen
      → sync_from parse existing jobs next ≡ ok m
      → IsTaken id existing m (seen || any (λ job. job.id == id) jobs)
  unfolding sync_from
  sync_from-IsTaken id existing [] next m seen h done =
      let same : next ≡ m = ap (λ r. elim r [ ok held ↦ held | err e ↦ next ]) done in
      rw (sym same) (record {
        distinct = h.distinct;
        keyed = h.keyed;
        taken = λ r s. h.taken r (ground (arith, s));
      })
  sync_from-IsTaken id existing (job ∷ jobs) next m seen h done =
      elim (Parsed-cases (parse job.schedule)) [
        | inr (e, bad) ↦ absurd (ground (arith, bad, done))
        | inl (schedule, good) ↦
            let kept = with_previous parse existing job in
            let later =
              sync_from-IsTaken id existing jobs (insert kept.id kept next) m
                (seen || (job.id == id)) (insert-IsTaken id existing next seen job h)
                (rw (good, sync_from) at done) in
            record {
              distinct = later.distinct;
              keyed = later.keyed;
              taken = λ r s. later.taken r (ground (arith, s));
            }
      ]
