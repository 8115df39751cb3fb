-- ===== src/Tests/Stores.antt =====
-- A short life of one job, in steps of the repository: created at 10, claimed by "w" at 20, run at
-- 30, and completed at 40.
use auto_cert_x.Prelude.{ℕ, String, ◌≡◌, refl, true, false, Option, some, ok, [], ◌<◌, arith}
use auto_cert_x.Prelude.Int.{pos}
use auto_cert_x.Dict.{lookup, lookup_list, insert}
use auto_cert_x.Text.{trim_space}
use auto_cert_x.Job.AttemptStatus
use auto_cert_x.Job.Status
use auto_cert_x.Job.Status.{is_terminal, is_leased}
use auto_cert_x.Job.Record.{Job, CreateParams, new, zero_job}
use auto_cert_x.Job.Lifecycle
use auto_cert_x.Job.Attempt
use auto_cert_x.JobStore.Params.{ClaimParams, MarkRunningParams, CompleteParams, CompletionResult}
use auto_cert_x.JobStore.State.{
  Store, empty, stored_job, require_job, active_attempt, last_active, claimable_ids,
}
use auto_cert_x.JobStore.Commands
use auto_cert_x.JobStore.Reachable.{
  IsNew, Reachable, start, next, creating, claiming, starting, completing,
}

abbrev pub issue_params : CreateParams
issue_params = record {
  tenant_id = "t";
  project_id = "p";
  environment_id = "e";
  job_type = "issue";
  aggregate_type = "certificate";
  aggregate_id = "c";
  priority = pos 1;
  payload = [];
  idempotency_key = "key";
  max_attempts = pos 2;
  next_run_at = 0;
}

abbrev pub created_job : Job
unfolding new
created_job = elim (new issue_params 10 (some "j")) [ ok j ↦ j | _ ↦ zero_job ]

pub created_job-IsNew : IsNew empty created_job
unfolding new trim_space lookup
created_job-IsNew = record {
  params = issue_params;
  now = 10;
  made = refl;
  unused = refl;
  trimmed = refl;
  named = λ e. cc;
}

-- ids drawn for attempts
abbrev pub attempt_ids : ℕ → Option String
attempt_ids k = some "a"

abbrev pub claim_params : ClaimParams
claim_params = record { worker_id = "w"; max_jobs = pos 1; lease_ttl = pos 100; now = 20 }

abbrev pub start_params : MarkRunningParams
start_params = record { job_id = "j"; worker_id = "w"; now = 30 }

abbrev pub complete_params : CompleteParams
complete_params = record {
  job_id = "j";
  worker_id = "w";
  result_status = AttemptStatus.succeeded;
  retryable = false;
  retry_delay = pos 0;
  error_code = "";
  error_message = "";
  evidence_ref = "log";
  now = 40;
}

unfoldable pub with_job : Store
unfolding Commands.create new trim_space lookup insert
with_job = (Commands.create empty created_job).1

unfoldable pub with_claim : Store
unfolding Commands.claim Commands.claim_loop Commands.claim_one Commands.claim_record
    Commands.effective_max_jobs claimable_ids stored_job lookup lookup_list insert trim_space
    Lifecycle.claim
with_claim = (Commands.claim with_job claim_params attempt_ids).1

unfoldable pub with_run : Store
unfolding Commands.mark_running require_job lookup lookup_list insert trim_space
    Lifecycle.mark_running active_attempt last_active
with_run = (Commands.mark_running with_claim start_params).1

unfoldable pub with_end : Store
unfolding Commands.complete require_job lookup lookup_list insert trim_space active_attempt
    last_active Lifecycle.mark_succeeded Attempt.mark_succeeded
with_end = (Commands.complete with_run complete_params).1

pub with_job-Reachable : Reachable with_job
unfolding with_job
with_job-Reachable = next start (creating created_job created_job-IsNew refl)

pub with_claim-Reachable : Reachable with_claim
unfolding with_claim
with_claim-Reachable = next with_job-Reachable (claiming claim_params attempt_ids refl)

pub with_run-Reachable : Reachable with_run
unfolding with_run
with_run-Reachable = next with_claim-Reachable (starting start_params refl)

pub with_end-Reachable : Reachable with_end
unfolding with_end
with_end-Reachable = next with_run-Reachable (completing complete_params refl)

with_end_holds :
    let j = stored_job with_end "j" in
    (j.status ≡ Status.succeeded) × (j.version ≡ 4) × (j.lease_owner ≡ "") × (j.attempt_count ≡ 1)
unfolding with_end with_run with_claim with_job stored_job Attempt.is_active
with_end_holds = (refl, refl, refl, refl)

pub with_claim_holds : lookup "j" with_claim.jobs ≡ some (stored_job with_claim "j")
unfolding with_claim with_job stored_job
with_claim_holds = refl

pub with_end_found : lookup "j" with_end.jobs ≡ some (stored_job with_end "j")
unfolding with_end with_run with_claim with_job stored_job Attempt.is_active
with_end_found = refl

pub with_end_ended : is_terminal (stored_job with_end "j").status ≡ true
unfolding with_end with_run with_claim with_job stored_job Attempt.is_active is_terminal
with_end_ended = refl

pub with_claim_leased : is_leased (stored_job with_claim "j").status ≡ true
unfolding with_claim with_job stored_job is_leased
with_claim_leased = refl

pub with_claim_alive : 50 < (stored_job with_claim "j").lease_expire_at
unfolding with_claim with_job stored_job
with_claim_alive = omega arith

-- The completion returns the finished job and its attempt.
pub completion :
    (r : CompletionResult) × (Commands.complete with_run complete_params ≡ (ok r, with_end))
unfolding with_end with_run with_claim with_job stored_job Attempt.is_active
completion = (_, refl)
