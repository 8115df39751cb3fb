-- ===== src/Orchestration/Steps.antt =====
-- internal/workflow/service.go: the calls of the services that the handlers share.
use Prim.Native.String.{◌++◌}
use auto_cert_x.Prelude.{ℕ, String, Bool, true, false, Result, ok, err, if◌then◌else◌}
use auto_cert_x.Prelude.Int.{pos}
use auto_cert_x.Prelude.Exec.{Exec, pure, leave, ◌>>=◌, ◌>>◌, or_leave, outcome, ignore}
use auto_cert_x.Text.{trim_space}
use auto_cert_x.Job.Errors.{Error, Outcome}
use auto_cert_x.Job.Clock.{Time, Duration}
use auto_cert_x.Job.Record.{Job, Payload}
use auto_cert_x.JobStore.Reaping
use auto_cert_x.JobService.Service
use auto_cert_x.JobService.Service.{ScheduleInput}
use auto_cert_x.Resource.Errors.{ResourceError}
use auto_cert_x.Resource.Scope.{Scope}
use auto_cert_x.CertificateRequest.Status.{RequestStatus}
use auto_cert_x.CertificateRequest.State.{Request}
use auto_cert_x.CertificateRequest.Commands
use auto_cert_x.IssueWorkflow.Status.{WorkflowStatus}
use auto_cert_x.IssueWorkflow.ChallengeStatus.{ChallengeStatus}
use auto_cert_x.IssueWorkflow.State
use auto_cert_x.IssueWorkflow.State.{Workflow, Challenge}
use auto_cert_x.IssueWorkflow.Commands as Commands'
use auto_cert_x.IssueWorkflow.Commands.{Update, record_error, mark_failed, run_update}
use auto_cert_x.IssueWorkflow.Challenges.{update_challenge_status}
use auto_cert_x.Orchestration.Drivers.{Drivers, DriverError, is_temporary}
use auto_cert_x.Orchestration.World.{
  World, driving, reading_clock, asking, asking_jobs, on_requests, on_flows, on_jobs,
}

pub record ProcessResult : Type 0 where
  pub retryable : Bool
  pub retry_delay : Duration
  pub error_code : String
  pub error_message : String

-- `ProcessResult{}`
abbrev pub done : ProcessResult
done = record { retryable = false; retry_delay = pos 0; error_code = ""; error_message = "" }

abbrev pub failure : String → String → ProcessResult
failure code message = record done { error_code = code; error_message = message }

abbrev pub retry : String → String → ProcessResult
retry code message = record done { retryable = true; error_code = code; error_message = message }

abbrev pub start_job_type : String
start_job_type = "start_issue_workflow"

abbrev pub continue_job_type : String
continue_job_type = "continue_issue_workflow"

-- the text of a status
unfoldable pub text_of : WorkflowStatus → String
text_of WorkflowStatus.created = "created"
text_of WorkflowStatus.order_pending = "order_pending"
text_of WorkflowStatus.challenge_pending = "challenge_pending"
text_of WorkflowStatus.challenge_processing = "challenge_processing"
text_of WorkflowStatus.challenge_valid = "challenge_valid"
text_of WorkflowStatus.finalizing = "finalizing"
text_of WorkflowStatus.issued = "issued"
text_of WorkflowStatus.deploy_pending = "deploy_pending"
text_of WorkflowStatus.deploying = "deploying"
text_of WorkflowStatus.deployed = "deployed"
text_of WorkflowStatus.partially_failed = "partially_failed"
text_of WorkflowStatus.failed = "failed"
text_of WorkflowStatus.cancelled = "cancelled"
text_of (WorkflowStatus.other s) = s

abbrev pub start_key : String → String
start_key request_id = "issuewf:start:" ++ trim_space request_id

abbrev pub continue_key : String → String → String
continue_key workflow_id status =
    "issuewf:continue:" ++ (trim_space workflow_id ++ (":" ++ trim_space status))

module _ (d : Drivers) where
  open d use {Env, lower, describe, describe_job, encode_start, encode_continue}

  -- an action of the orchestration that may return an error of a service
  abbrev pub Act : Type 0 → Type 0
  Act A = Exec (World Env) ResourceError A

  -- an action inside a handler, which may return a result early
  abbrev pub Handling : Type 0 → Type 0
  Handling A = Exec (World Env) ProcessResult A

  abbrev pub or_fail : {A : Type 0} → String → Act A → Handling A
  or_fail code m = or_leave (λ e. failure code (describe e)) m

  unfoldable pub transition_request : Scope → String → RequestStatus → Act Request
  transition_request scope id next =
      on_requests d (λ now fresh s. Commands.transition s scope id next now)

  unfoldable pub update_workflow : Scope → String → Update → Act Workflow
  update_workflow scope id u = on_flows d (λ now fresh s. run_update s scope id now u)

  unfoldable pub move_challenge : Scope → String → String → ChallengeStatus → Act Challenge
  move_challenge scope workflow_id id next =
      on_flows d (λ now fresh s. update_challenge_status s scope workflow_id id next now)

  -- `ensureRequestAccepted`, and the others alike, by the status of the record at hand.
  unfoldable pub accept_from : RequestStatus → Scope → Request → Act Request
  unfolding transition_request
  accept_from RequestStatus.accepted scope r = pure r
  accept_from RequestStatus.running scope r = pure r
  accept_from RequestStatus.completed scope r = pure r
  accept_from _ scope r = transition_request scope r.id RequestStatus.accepted

  unfoldable pub run_from : RequestStatus → Scope → Request → Act Request
  unfolding transition_request
  run_from RequestStatus.running scope r = pure r
  run_from RequestStatus.completed scope r = pure r
  run_from RequestStatus.submitted scope r =
      transition_request scope r.id RequestStatus.accepted
      >> transition_request scope r.id RequestStatus.running
  run_from _ scope r = transition_request scope r.id RequestStatus.running

  unfoldable pub complete_from : RequestStatus → Scope → Request → Act Request
  unfolding transition_request
  complete_from RequestStatus.completed scope r = pure r
  complete_from _ scope r = transition_request scope r.id RequestStatus.completed

  unfoldable pub fail_from : RequestStatus → Scope → Request → Act Request
  unfolding transition_request
  fail_from RequestStatus.failed scope r = pure r
  fail_from RequestStatus.completed scope r = pure r
  fail_from _ scope r = transition_request scope r.id RequestStatus.failed

  abbrev pub ensure_request_accepted : Scope → Request → Act Request
  ensure_request_accepted scope r = accept_from r.status scope r

  abbrev pub ensure_request_running : Scope → Request → Act Request
  ensure_request_running scope r = run_from r.status scope r

  abbrev pub ensure_request_completed : Scope → Request → Act Request
  ensure_request_completed scope r = complete_from r.status scope r

  abbrev pub ensure_request_failed : Scope → Request → Act Request
  ensure_request_failed scope r = fail_from r.status scope r

  -- `classifyAdapterFailure`: a temporary error is retried, another fails workflow and request.
  unfoldable pub adapter_failure :
      {A : Type 0} → Scope → Request → Workflow → String → DriverError → Handling A
  unfolding is_temporary
  adapter_failure scope r w code e =
      ignore (update_workflow scope w.id (record_error code e.text))
      >> (if is_temporary lower e
          then leave (retry code e.text)
          else ignore (update_workflow scope w.id (mark_failed code e.text))
            >> ignore (ensure_request_failed scope r)
            >> leave done)

  -- a call of a driver, whose error is classified
  unfoldable pub classified :
      {A : Type 0} → Scope → Request → Workflow → String → Result DriverError A → Handling A
  unfolding adapter_failure
  classified scope r w code (ok a) = pure a
  classified scope r w code (err e) = adapter_failure scope r w code e

  unfoldable pub calling :
      {A : Type 0}
      → Scope
      → Request
      → Workflow
      → String
      → (Env → Result DriverError A × Env)
      → Handling A
  unfolding classified
  calling scope r w code call = outcome (driving d call) >>= classified scope r w code

  abbrev job_input :
      Request → String → String → String → ℕ → Payload → String → Time → ScheduleInput
  job_input r job_type aggregate_type aggregate_id priority payload key now = record {
    create = record {
      tenant_id = (r.scope).tenant_id;
      project_id = (r.scope).project_id;
      environment_id = (r.scope).environment_id;
      job_type = job_type;
      aggregate_type = aggregate_type;
      aggregate_id = aggregate_id;
      priority = pos priority;
      payload = payload;
      idempotency_key = key;
      max_attempts = pos 0;
      next_run_at = 0;
    };
    now = now;
  }

  -- the job that has the key, where `Schedule` says that there is one
  unfoldable pub scheduled : String → Outcome Job → Exec (World Env) Error Job
  scheduled key (ok j) = pure j
  scheduled key (err Error.duplicate_job) = asking_jobs d (λ s. Reaping.get_by_idempotency s key)
  scheduled key (err e) = leave e

  unfoldable pub schedule : ScheduleInput → Exec (World Env) Error Job
  schedule input = on_jobs d (λ t t' fresh s. Service.schedule s input t t' fresh)

  unfoldable pub schedule_once : String → (Time → ScheduleInput) → Exec (World Env) Error Job
  unfolding scheduled schedule
  schedule_once key input = do
    now ← reading_clock d
    answer ← outcome (schedule (input now))
    scheduled key answer

  unfoldable pub ensure_start_job : Request → Exec (World Env) Error Job
  unfolding schedule_once
  ensure_start_job r = schedule_once (start_key r.id) (
      job_input r start_job_type "certificate_request" r.id 100
        (encode_start (record { request_id = r.id })) (start_key r.id))

  unfoldable pub ensure_continue_job :
      Request → Workflow → WorkflowStatus → Exec (World Env) Error Job
  unfolding schedule_once text_of
  ensure_continue_job r w status = schedule_once (continue_key w.id (text_of status)) (
      job_input r continue_job_type "issue_workflow" w.id 90
        (encode_continue (record {
          request_id = r.id;
          workflow_id = w.id;
          expected_status = text_of status;
          trigger = r.request_source;
        }))
        (continue_key w.id (text_of status)))

  -- the end of a handler: the job that continues the workflow is scheduled
  abbrev pub or_schedule_failure : {A : Type 0} → Exec (World Env) Error A → Handling A
  or_schedule_failure m = or_leave (λ e. failure "WORKFLOW_SCHEDULE_FAILED" (describe_job e)) m

  unfoldable pub create_workflow : Scope → Request → Act Workflow
  create_workflow scope r = on_flows d (λ now fresh s.
      Commands'.create lower s scope
        (record {
          certificate_request_id = r.id;
          ca_account_id = r.ca_account_id;
          workflow_type = r.request_type;
        })
        now (fresh 0))

  -- a workflow, and whether it was created
  unfoldable pub created_or_found :
      Scope → Request → Result ResourceError Workflow → Act (Workflow × Bool)
  created_or_found scope r (ok w) = pure (w, true)
  created_or_found scope r (err ResourceError.conflict) =
      asking d (λ s. State.get_by_request s.flows scope r.id) >>= (λ w. pure (w, false))
  created_or_found scope r (err e) = leave e

  -- `ensureWorkflow`
  unfoldable pub ensure_workflow : Scope → Request → Act (Workflow × Bool)
  unfolding create_workflow created_or_found
  ensure_workflow scope r = outcome (create_workflow scope r) >>= created_or_found scope r
