-- ===== src/JobService/Plans.antt =====
-- internal/application/command/jobs/service.go: recurring plans, and the slot and the idempotency
-- key of a plan at an instant. `time.RFC3339` formatting is a parameter, a function on instants.
use Prim.Native.String.{◌++◌}
use auto_cert_x.Prelude.{zero, suc, ◌-◌, ◌%◌, String, ok, ◌>>◌, reject_if, ◌==◌, if◌then◌else◌}
use auto_cert_x.Prelude.Int.{ℤ, pos, negsuc, is_nonpos}
use auto_cert_x.Text.{trim_space}
use auto_cert_x.Job.Errors.{Outcome, invalid_job}
use auto_cert_x.Job.Clock.{Time, Duration, is_zero}
use auto_cert_x.Job.Record.{Payload, CreateParams}

pub record PlanDefinition : Type 0 where
  pub name : String
  pub tenant_id : String
  pub project_id : String
  pub environment_id : String
  pub job_type : String
  pub aggregate_type : String
  pub aggregate_id : String
  pub priority : ℤ
  pub payload : Payload
  pub max_attempts : ℤ
  pub interval : Duration

-- `coalesceTime`
abbrev pub coalesce_time : Time → Time → Time
coalesce_time t fallback = if is_zero t then fallback else t

-- `t.Truncate(d)`: down to a multiple of `d` since the zero time, or `t` if `d` is not positive
abbrev pub truncate : Time → Duration → Time
truncate t (pos zero) = t
truncate t (pos (suc n)) = t - t % suc n
truncate t (negsuc n) = t

-- `plan.slot`; `wall` is the reading of `time.Now()` that a zero instant falls back on.
unfoldable pub slot : (Time → String) → PlanDefinition → Time → Time → Outcome (Time × String)
slot format plan at wall = do
  reject_if (trim_space plan.name == "") invalid_job
  reject_if (is_nonpos plan.interval) invalid_job
  let now = coalesce_time at wall
  let start = truncate now plan.interval
  ok (start, "plan:" ++ (trim_space plan.name ++ (":" ++ format start)))

-- what `EnsurePlanned` hands to `job.New`
abbrev pub plan_params : PlanDefinition → Time → String → CreateParams
plan_params plan start key = record {
  tenant_id = plan.tenant_id;
  project_id = plan.project_id;
  environment_id = plan.environment_id;
  job_type = plan.job_type;
  aggregate_type = plan.aggregate_type;
  aggregate_id = plan.aggregate_id;
  priority = plan.priority;
  payload = plan.payload;
  idempotency_key = key;
  max_attempts = plan.max_attempts;
  next_run_at = start;
}
