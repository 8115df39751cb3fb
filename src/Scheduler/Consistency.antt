-- ===== src/Scheduler/Consistency.antt =====
-- The rounds of internal/scheduler keep the repository consistent.
use auto_cert_x.Prelude.{
  ℕ, ◌+◌, String, Option, List, [], ◌∷◌, ok, err, Result-cases, Bool-cases, inl, inr, ◌==◌,
}
use auto_cert_x.Prelude.Int.{is_nonpos}
use auto_cert_x.Job.Clock.{Time}
use auto_cert_x.JobStore.Params.{
  ClaimParams, ClaimedJob, CompleteParams, HeartbeatParams, MarkRunningParams,
}
use auto_cert_x.JobStore.State.{Store}
use auto_cert_x.JobStore.Invariant.{IsConsistent}
use auto_cert_x.JobStore.Claiming.{claim-IsConsistent}
use auto_cert_x.JobStore.Preserving.{
  mark_running-IsConsistent, heartbeat-IsConsistent, complete-IsConsistent,
}
use auto_cert_x.JobService.Backoff.{Floats, BackoffPolicy}
use auto_cert_x.JobService.Service
use auto_cert_x.JobService.Service.{completed_params, complete_with}
use auto_cert_x.JobService.Plans.{coalesce_time}
use auto_cert_x.Job.Errors.{Outcome}
use auto_cert_x.Job.Record.{Job}
use auto_cert_x.Scheduler.Worker.{
  at_least_one, after_start, discard, after_renewals, Worker, Run, renew_loop, complete_run,
  execute_claim, execute_all, run_once,
}

renew_loop-IsConsistent :
    (w : Worker) (id : String) (ticks : List Time) (s : Store)
    → IsConsistent s
    → IsConsistent (renew_loop w id ticks s).1
unfolding renew_loop Service.heartbeat
renew_loop-IsConsistent w id [] s c = c
renew_loop-IsConsistent w id (now ∷ ticks) s c =
    let p : HeartbeatParams = record {
      job_id = id;
      worker_id = w.worker_id;
      lease_ttl = w.lease_ttl;
      now = now;
    } in
    let renewed : IsConsistent (Service.heartbeat s p now).1 =
      heartbeat-IsConsistent s (record p { now = coalesce_time p.now now }) c in
    elim (Result-cases (Service.heartbeat s p now).0) [
      | inl (r, e) ↦
          rw (e, renew_loop)
            (renew_loop-IsConsistent w id ticks (Service.heartbeat s p now).1 renewed)
      | inr (x, e) ↦ rw (e, renew_loop) renewed
    ]

discard-IsConsistent :
    {A : Type 0} (done : Outcome A × Store) → IsConsistent done.1 → IsConsistent (discard done).1
discard-IsConsistent (ok a, s) c = c
discard-IsConsistent (err e, s) c = c

module _ (fl : Floats) (policy : BackoffPolicy fl.Float) where
  complete_with-IsConsistent :
      (s : Store) (m : Outcome CompleteParams)
      → IsConsistent s
      → IsConsistent (complete_with fl policy s m).1
  complete_with-IsConsistent s (ok p) c = complete-IsConsistent s p c
  complete_with-IsConsistent s (err e) c = c

  service_complete-IsConsistent :
      (s : Store) (p : CompleteParams) (clock : Time)
      → IsConsistent s
      → IsConsistent (Service.complete fl policy s p clock).1
  unfolding Service.complete
  service_complete-IsConsistent s p clock c =
      complete_with-IsConsistent s
        (completed_params fl policy s (record p { now = coalesce_time p.now clock })) c

  module _ (w : Worker) where
    after_renewals-IsConsistent :
        (id : String) (run : Run) (renewed : Outcome Unit × Store)
        → IsConsistent renewed.1
        → IsConsistent (after_renewals fl policy w id run renewed).1
    unfolding complete_run
    after_renewals-IsConsistent id run (err e, s) c = c
    after_renewals-IsConsistent id run (ok done, s) c =
        discard-IsConsistent (complete_run fl policy w id run s)
          (service_complete-IsConsistent s _ run.finished c)

    after_start-IsConsistent :
        (id : String) (run : Run) (started : Outcome Job × Store)
        → IsConsistent started.1
        → IsConsistent (after_start fl policy w id run started).1
    after_start-IsConsistent id run (err e, s) c = c
    after_start-IsConsistent id run (ok j, s) c =
        after_renewals-IsConsistent id run (renew_loop w id run.ticks s)
          (renew_loop-IsConsistent w id run.ticks s c)

    execute_claim-IsConsistent :
        (claim : ClaimedJob) (run : Run) (s : Store)
        → IsConsistent s
        → IsConsistent (execute_claim fl policy w claim run s).1
    unfolding execute_claim Service.mark_running
    execute_claim-IsConsistent claim run s c =
        let p : MarkRunningParams = record {
          job_id = claim.job.id;
          worker_id = w.worker_id;
          now = run.started;
        } in
        after_start-IsConsistent claim.job.id run (Service.mark_running s p run.started)
          (mark_running-IsConsistent s (record p { now = coalesce_time run.started run.started }) c)

    execute_all-IsConsistent :
        (runs : ℕ → Run) (k : ℕ) (claims : List ClaimedJob) (s : Store)
        → IsConsistent s
        → IsConsistent (execute_all fl policy w runs k claims s).2
    unfolding execute_all
    execute_all-IsConsistent runs k [] s c = c
    execute_all-IsConsistent runs k (claim ∷ claims) s c =
        let executed = execute_claim fl policy w claim (runs k) s in
        let later =
          execute_all-IsConsistent runs (k + 1) claims executed.1
            (execute_claim-IsConsistent claim (runs k) s c) in
        elim (Result-cases executed.0) [
          | inl (done, e) ↦ rw (e, execute_all) later
          | inr (x, e) ↦ rw (e, execute_all) later
        ]

-- One round of a worker, whatever its settings, the jobs it gets, the results of their execution
-- and the heartbeats meanwhile, takes a consistent repository to a consistent one.
pub run_once-IsConsistent :
    (fl : Floats) (policy : BackoffPolicy fl.Float) (w : Worker) (s : Store) (now : Time)
    (fresh : ℕ → Option String) (runs : ℕ → Run)
    → IsConsistent s
    → IsConsistent (run_once fl policy w s now fresh runs).2
unfolding run_once Service.claim
run_once-IsConsistent fl policy w s now fresh runs c = elim (Bool-cases (w.worker_id == "")) [
  | inl nameless ↦ rw nameless c
  | inr named ↦ elim (Bool-cases (is_nonpos w.lease_ttl)) [
    | inl timeless ↦ rw (named, timeless) c
    | inr timed ↦
        let p : ClaimParams = record {
          worker_id = w.worker_id;
          max_jobs = at_least_one w.max_jobs;
          lease_ttl = w.lease_ttl;
          now = now;
        } in
        let taken : IsConsistent (Service.claim s p now fresh).1 =
          claim-IsConsistent s (record p { now = coalesce_time now now }) fresh c in
        elim (Result-cases (Service.claim s p now fresh).0) [
          | inl (claims, e) ↦
              rw (named, timed, e)
                (execute_all-IsConsistent fl policy w runs 0 claims (Service.claim s p now fresh).1
                  taken)
          | inr (x, e) ↦ rw (named, timed, e) taken
        ]
  ]
]
