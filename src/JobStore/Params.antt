-- ===== src/JobStore/Params.antt =====
-- internal/application/command/jobs/service.go: what the repository's commands take and return.
-- A retry policy is given by its method `Delay`, a function of the attempt count.
use auto_cert_x.Prelude.{ℕ, String, Bool}
use auto_cert_x.Prelude.Int.{ℤ}
use auto_cert_x.Job.Clock.{Time, Duration}
use auto_cert_x.Job.AttemptStatus.{AttemptStatus}
use auto_cert_x.Job.Attempt.{Attempt}
use auto_cert_x.Job.Record.{Job}

pub record PlannedJob : Type 0 where
  pub job : Job
  pub created : Bool

pub record ClaimParams : Type 0 where
  pub worker_id : String
  pub max_jobs : ℤ
  pub lease_ttl : Duration
  pub now : Time

pub record ClaimedJob : Type 0 where
  pub job : Job
  pub attempt : Attempt

pub record MarkRunningParams : Type 0 where
  pub job_id : String
  pub worker_id : String
  pub now : Time

pub record HeartbeatParams : Type 0 where
  pub job_id : String
  pub worker_id : String
  pub lease_ttl : Duration
  pub now : Time

pub record HeartbeatResult : Type 0 where
  pub job : Job
  pub attempt : Attempt

pub record CompleteParams : Type 0 where
  pub job_id : String
  pub worker_id : String
  pub result_status : AttemptStatus
  pub retryable : Bool
  pub retry_delay : Duration
  pub error_code : String
  pub error_message : String
  pub evidence_ref : String
  pub now : Time

pub record CompletionResult : Type 0 where
  pub job : Job
  pub attempt : Attempt
  pub retry_scheduled : Bool

pub record CancelParams : Type 0 where
  pub job_id : String
  pub now : Time

pub record ReapParams : Type 0 where
  pub now : Time
  pub limit : ℤ
  pub delay : ℕ → Duration

pub record ReapedLease : Type 0 where
  pub job : Job
  pub attempt : Attempt
  pub retry_scheduled : Bool
