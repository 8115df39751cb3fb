-- ===== src/Job/Attempt.antt =====
-- internal/domain/job/attempt.go: one execution of a job. A method on a value receiver returns the
-- new record. The id that `generateID` draws is an argument, `none` where the random source fails.
use auto_cert_x.Prelude.{
  ℕ, String, Bool, not, Option, none, some, ok, err, ◌>>=◌, ◌>>◌, reject_if, leb, ◌==◌,
}
use auto_cert_x.Text.{trim_space}
use auto_cert_x.Job.Errors.{Outcome, invalid_attempt, attempt_finished, id_source_failed}
use auto_cert_x.Job.Clock.{Time, zero_time, normalize_time}
use auto_cert_x.Job.AttemptStatus.{
  AttemptStatus, is_terminal, started, heartbeating, succeeded, failed, timed_out, abandoned,
}

pub record Attempt : Type 0 where
  pub id : String
  pub job_id : String
  pub attempt_no : ℕ
  pub worker_id : String
  pub agent_id : String
  pub started_at : Time
  pub last_heartbeat_at : Time
  pub finished_at : Time
  pub result_status : AttemptStatus
  pub error_code : String
  pub error_message : String
  pub evidence_ref : String
  pub created_at : Time
  pub updated_at : Time

pub record Failure : Type 0 where
  pub code : String
  pub message : String

-- the error branch of `generateID`
abbrev pub drawn : Option String → Outcome String
drawn none = err id_source_failed
drawn (some id) = ok id

unfoldable pub new_attempt : String → ℕ → String → Time → Option String → Outcome Attempt
new_attempt job_id attempt_no worker_id at fresh = do
  let now = normalize_time at
  reject_if (trim_space job_id == "") invalid_attempt
  reject_if (leb attempt_no 0) invalid_attempt
  reject_if (trim_space worker_id == "") invalid_attempt
  id ← drawn fresh
  ok (record {
    id = id;
    job_id = trim_space job_id;
    attempt_no = attempt_no;
    worker_id = trim_space worker_id;
    agent_id = "";
    started_at = now;
    last_heartbeat_at = zero_time;
    finished_at = zero_time;
    result_status = started;
    error_code = "";
    error_message = "";
    evidence_ref = "";
    created_at = now;
    updated_at = now;
  })

-- `Active`
unfoldable pub is_active : Attempt → Bool
unfolding is_terminal
is_active a = not (is_terminal a.result_status)

unfoldable pub heartbeat : Attempt → Time → Outcome Attempt
heartbeat a at = do
  let now = normalize_time at
  reject_if (not (is_active a)) attempt_finished
  ok (record a { result_status = heartbeating; last_heartbeat_at = now; updated_at = now })

unfoldable pub mark_succeeded : Attempt → Time → String → Outcome Attempt
mark_succeeded a at evidence = do
  let now = normalize_time at
  reject_if (not (is_active a)) attempt_finished
  ok (record a {
    result_status = succeeded;
    evidence_ref = trim_space evidence;
    finished_at = now;
    updated_at = now;
  })

unfoldable pub finish : Attempt → AttemptStatus → Time → Failure → String → Outcome Attempt
finish a status at failure evidence = do
  let now = normalize_time at
  reject_if (not (is_active a)) attempt_finished
  ok (record a {
    result_status = status;
    error_code = trim_space failure.code;
    error_message = trim_space failure.message;
    evidence_ref = trim_space evidence;
    finished_at = now;
    updated_at = now;
  })

unfoldable pub mark_failed : Attempt → Time → Failure → Outcome Attempt
unfolding finish
mark_failed a now failure = finish a failed now failure ""

unfoldable pub mark_timed_out : Attempt → Time → Failure → Outcome Attempt
unfolding finish
mark_timed_out a now failure = finish a timed_out now failure ""

unfoldable pub mark_abandoned : Attempt → Time → Failure → Outcome Attempt
unfolding finish
mark_abandoned a now failure = finish a abandoned now failure ""
