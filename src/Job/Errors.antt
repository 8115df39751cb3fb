-- ===== src/Job/Errors.antt =====
-- internal/domain/job/errors.go. A wrapped error (`fmt.Errorf("%w: …")`) is the sentinel it wraps;
-- the message is not modelled. `id_source_failed` stands for a failure of the random source under
-- `generateID`.
use auto_cert_x.Prelude.{Result}

pub data Error : Type 0 where
  invalid_job invalid_attempt invalid_transition job_not_schedulable : Error
  lease_not_held lease_expired lease_owner_mismatch : Error
  attempt_finished job_not_retryable duplicate_job job_not_found attempt_not_found : Error
  id_source_failed : Error

abbrev pub Outcome : Type 0 → Type 0
Outcome A = Result Error A
