-- ===== src/Scheduler/Worker.antt =====
-- internal/scheduler/worker.go. The executor is outside the program: what it does with a claimed
-- job is a `Run`, its result and the instants that the worker reads meanwhile. The renewals of the
-- background goroutine happen between `MarkRunning` and `Complete`, which waits for it to stop.
use auto_cert_x.Prelude.{
  ℕ, suc, ◌+◌, String, Bool, Option, none, some, List, [], ◌∷◌, ok, err, ◌==◌, if◌then◌else◌,
}
use auto_cert_x.Prelude.Int.{ℤ, pos, is_nonpos}
use auto_cert_x.Job.Errors.{Error, Outcome}
use auto_cert_x.Job.Clock.{Time, Duration}
use auto_cert_x.Job.AttemptStatus.{AttemptStatus, succeeded, other}
use auto_cert_x.Job.Record.{Job}
use auto_cert_x.JobStore.Params.{ClaimedJob, CompletionResult}
use auto_cert_x.JobStore.State.{Store}
use auto_cert_x.JobService.Backoff.{Floats, BackoffPolicy}
use auto_cert_x.JobService.Service

pub record Worker : Type 0 where
  pub worker_id : String
  pub max_jobs : ℤ
  pub lease_ttl : Duration

pub record ExecutionResult : Type 0 where
  pub result_status : AttemptStatus
  pub retryable : Bool
  pub retry_delay : Duration
  pub error_code : String
  pub error_message : String
  pub evidence_ref : String

-- One execution: the start, the ticks at which the lease is renewed, the result, and the end.
pub record Run : Type 0 where
  pub started : Time
  pub ticks : List Time
  pub result : ExecutionResult
  pub finished : Time

-- `normalizeResultStatus`: the empty status counts as a success.
unfoldable pub normalize_result_status : AttemptStatus → AttemptStatus
normalize_result_status (other s) = if s == "" then succeeded else other s
normalize_result_status status = status

-- `renewLoop`: the first failed heartbeat ends it, and is what `executeClaim` then returns.
unfoldable pub renew_loop : Worker → String → List Time → Store → Outcome Unit × Store
renew_loop w job_id [] s = (ok tt, s)
renew_loop w job_id (now ∷ ticks) s =
    let (renewed, s') =
      Service.heartbeat s
        (record { job_id = job_id; worker_id = w.worker_id; lease_ttl = w.lease_ttl; now = now })
        now in
    elim renewed [ err e ↦ (err e, s') | ok r ↦ renew_loop w job_id ticks s' ]

-- `_, err := …; return err`
abbrev pub discard : {A : Type 0} → Outcome A × Store → Outcome Unit × Store
discard (ok a, s) = (ok tt, s)
discard (err e, s) = (err e, s)

module _ (fl : Floats) (policy : BackoffPolicy fl.Float) where
  unfoldable pub complete_run : Worker → String → Run → Store → Outcome CompletionResult × Store
  unfolding normalize_result_status
  complete_run w job_id run s =
      Service.complete fl policy s
        (record {
          job_id = job_id;
          worker_id = w.worker_id;
          result_status = normalize_result_status run.result.result_status;
          retryable = run.result.retryable;
          retry_delay = run.result.retry_delay;
          error_code = run.result.error_code;
          error_message = run.result.error_message;
          evidence_ref = run.result.evidence_ref;
          now = run.finished;
        })
        run.finished

  abbrev pub after_renewals : Worker → String → Run → Outcome Unit × Store → Outcome Unit × Store
  after_renewals w job_id run (err e, s) = (err e, s)
  after_renewals w job_id run (ok done, s) = discard (complete_run w job_id run s)

  abbrev pub after_start : Worker → String → Run → Outcome Job × Store → Outcome Unit × Store
  after_start w job_id run (err e, s) = (err e, s)
  after_start w job_id run (ok j, s) = after_renewals w job_id run (renew_loop w job_id run.ticks s)

  -- `executeClaim`
  unfoldable pub execute_claim : Worker → ClaimedJob → Run → Store → Outcome Unit × Store
  execute_claim w claim run s = after_start w claim.job.id run (
      Service.mark_running s
        (record { job_id = claim.job.id; worker_id = w.worker_id; now = run.started }) run.started)

  -- `RunOnce` after the claim: a failed job does not stop the others.
  unfoldable pub execute_all :
      Worker → (ℕ → Run) → ℕ → List ClaimedJob → Store → ℕ × List (String × Error) × Store
  execute_all w runs k [] s = (0, [], s)
  execute_all w runs k (claim ∷ claims) s =
      let (executed, s') = execute_claim w claim (runs k) s in
      let (processed, errors, s'') = execute_all w runs (k + 1) claims s' in
      elim executed [
        | ok done ↦ (suc processed, errors, s'')
        | err e ↦ (processed, (claim.job.id, e) ∷ errors, s'')
      ]

-- what `RunOnce` returns beside the number of jobs processed
pub data WorkerError : Type 0 where
  worker_id_required lease_ttl_required : WorkerError
  claim_failed : Error → WorkerError
  executions_failed : List (String × Error) → WorkerError

-- `errors.Join` of no error is no error.
abbrev join_errors : List (String × Error) → Option WorkerError
join_errors [] = none
join_errors (e ∷ es) = some (executions_failed (e ∷ es))

-- `if w.MaxJobs <= 0 { w.MaxJobs = 1 }`
abbrev pub at_least_one : ℤ → ℤ
at_least_one n = if is_nonpos n then pos 1 else n

unfoldable pub run_once :
    (fl : Floats)
    → BackoffPolicy fl.Float
    → Worker
    → Store
    → Time
    → (ℕ → Option String)
    → (ℕ → Run)
    → ℕ × Option WorkerError × Store
run_once fl policy w s now fresh runs =
    if w.worker_id == ""
    then (0, some worker_id_required, s)
    else if is_nonpos w.lease_ttl
    then (0, some lease_ttl_required, s)
    else let (claims, s') =
        Service.claim s
          (record {
            worker_id = w.worker_id;
            max_jobs = at_least_one w.max_jobs;
            lease_ttl = w.lease_ttl;
            now = now;
          })
          now fresh in
      elim claims [
        | err e ↦ (0, some (claim_failed e), s')
        | ok claimed ↦
            let (processed, errors, s'') = execute_all fl policy w runs 0 claimed s' in
            (processed, join_errors errors, s'')
      ]
