-- ===== src/Job/Record.antt =====
-- internal/domain/job/job.go: the scheduling record, its creation, and the tests that the
-- transitions make on it.
use auto_cert_x.Prelude.{
  ℕ, String, Bool, false, not, ◌&&◌, ◌||◌, Option, List, [], ◌∷◌, ok, ◌>>=◌, ◌>>◌, reject_if, ltb,
  leb, ◌==◌, if◌then◌else◌,
}
use auto_cert_x.Prelude.Int.{ℤ, pos, negsuc}
use auto_cert_x.Text.{trim_space}
use auto_cert_x.Job.Errors.{
  Outcome, invalid_job, invalid_transition, lease_not_held, lease_expired, lease_owner_mismatch,
}
use auto_cert_x.Job.Clock.{Time, zero_time, is_zero, before, after, normalize_time, inc64}
use auto_cert_x.Job.Status.{Status, is_leased, pending, unset}
use auto_cert_x.Job.Attempt.{Failure, drawn}

-- `json.RawMessage`, as bytes
abbrev pub Payload : Type 0
Payload = List ℕ

pub record Job : Type 0 where
  pub id : String
  pub tenant_id : String
  pub project_id : String
  pub environment_id : String
  pub job_type : String
  pub aggregate_type : String
  pub aggregate_id : String
  pub status : Status
  pub priority : ℤ
  pub payload : Payload
  pub idempotency_key : String
  pub lease_owner : String
  pub lease_expire_at : Time
  pub attempt_count : ℕ
  pub max_attempts : ℕ
  pub next_run_at : Time
  pub last_error_code : String
  pub last_error_message : String
  pub version : ℕ
  pub created_at : Time
  pub updated_at : Time

-- `Job{}`
abbrev pub zero_job : Job
zero_job = record {
  id = "";
  tenant_id = "";
  project_id = "";
  environment_id = "";
  job_type = "";
  aggregate_type = "";
  aggregate_id = "";
  status = unset;
  priority = pos 0;
  payload = [];
  idempotency_key = "";
  lease_owner = "";
  lease_expire_at = zero_time;
  attempt_count = 0;
  max_attempts = 0;
  next_run_at = zero_time;
  last_error_code = "";
  last_error_message = "";
  version = 0;
  created_at = zero_time;
  updated_at = zero_time;
}

pub record CreateParams : Type 0 where
  pub tenant_id : String
  pub project_id : String
  pub environment_id : String
  pub job_type : String
  pub aggregate_type : String
  pub aggregate_id : String
  pub priority : ℤ
  pub payload : Payload
  pub idempotency_key : String
  pub max_attempts : ℤ
  pub next_run_at : Time

abbrev pub default_max_attempts : ℕ
default_max_attempts = 3

-- an empty payload is the text "{}"
unfoldable pub clone_payload : Payload → Payload
clone_payload [] = b'{' ∷ b'}' ∷ []
clone_payload (b ∷ bs) = b ∷ bs

-- `maxAttempts <= 0` takes the default
unfoldable pub effective_max_attempts : ℤ → ℕ
effective_max_attempts (pos n) = if leb n 0 then default_max_attempts else n
effective_max_attempts (negsuc n) = default_max_attempts

-- `job.New`
unfoldable pub new : CreateParams → Time → Option String → Outcome Job
unfolding clone_payload effective_max_attempts
new p at fresh = do
  let now = normalize_time at
  let requested = normalize_time p.next_run_at
  let next_run_at = if is_zero requested then now else requested
  reject_if (trim_space p.tenant_id == "") invalid_job
  reject_if (trim_space p.project_id == "") invalid_job
  reject_if (trim_space p.environment_id == "") invalid_job
  reject_if (trim_space p.job_type == "") invalid_job
  reject_if (trim_space p.aggregate_type == "") invalid_job
  reject_if (trim_space p.aggregate_id == "") invalid_job
  reject_if (trim_space p.idempotency_key == "") invalid_job
  id ← drawn fresh
  ok (record {
    id = id;
    tenant_id = trim_space p.tenant_id;
    project_id = trim_space p.project_id;
    environment_id = trim_space p.environment_id;
    job_type = trim_space p.job_type;
    aggregate_type = trim_space p.aggregate_type;
    aggregate_id = trim_space p.aggregate_id;
    status = pending;
    priority = p.priority;
    payload = clone_payload p.payload;
    idempotency_key = trim_space p.idempotency_key;
    lease_owner = "";
    lease_expire_at = zero_time;
    attempt_count = 0;
    max_attempts = effective_max_attempts p.max_attempts;
    next_run_at = next_run_at;
    last_error_code = "";
    last_error_message = "";
    version = 1;
    created_at = now;
    updated_at = now;
  })

unfoldable pub due : Job → Time → Bool
due j at =
    let now = normalize_time at in if is_zero now then false else not (before now j.next_run_at)

unfoldable pub lease_active : Job → Time → Bool
lease_active j at =
    let now = normalize_time at in
    not (j.lease_owner == "") && not (is_zero j.lease_expire_at) && after j.lease_expire_at now

unfoldable pub lease_expired_at : Job → Time → Bool
lease_expired_at j at =
    let now = normalize_time at in
    not (j.lease_owner == "")
    && not (is_zero j.lease_expire_at)
    && not (after j.lease_expire_at now)

unfoldable pub can_retry : Job → Bool
can_retry j = ltb j.attempt_count j.max_attempts

-- `clearLease`
abbrev pub clear_lease : Job → Job
clear_lease j = record j { lease_owner = ""; lease_expire_at = zero_time }

-- `applyFailure`
abbrev pub apply_failure : Job → Failure → Job
apply_failure j failure = record j {
  last_error_code = trim_space failure.code;
  last_error_message = trim_space failure.message;
}

-- `next.Version++; next.UpdatedAt = now`
abbrev pub touch : Job → Time → Job
touch j now = record j { version = inc64 j.version; updated_at = now }

unfoldable pub require_lease_owner : Job → String → Time → Outcome Unit
require_lease_owner j worker now = do
  let owner = trim_space worker
  reject_if (owner == "") invalid_job
  reject_if (j.lease_owner == "" || is_zero j.lease_expire_at) lease_not_held
  reject_if (not (j.lease_owner == owner)) lease_owner_mismatch
  reject_if (not (after j.lease_expire_at now)) lease_expired
  ok tt

unfoldable pub require_active_execution : Job → String → Time → Outcome Unit
unfolding require_lease_owner is_leased
require_active_execution j owner now = do
  reject_if (not (is_leased j.status)) invalid_transition
  require_lease_owner j owner now
