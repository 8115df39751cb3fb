-- ===== src/Job/Effects.antt =====
-- What a successful transition of a job record says of the record before and after it
-- (internal/domain/job/job.go).
use auto_cert_x.Prelude.{◌+◌, ◌<◌, ◌≤◌, String, ◌≡◌, ◌≢◌, true, false, Option, ok, arith, eq_iff}
use auto_cert_x.Text.{trim_space, trim_space_idem}
use auto_cert_x.Job.Clock.{Time, Duration, inc64, add_time}
use auto_cert_x.Job.Status.{
  is_leased, can_claim, can_cancel, claimed, running, retry, succeeded, failed, cancelled,
  timed_out,
}
use auto_cert_x.Job.AttemptStatus.{AttemptStatus}
use auto_cert_x.Job.Attempt.{Attempt, Failure, is_active}
use auto_cert_x.Job.Record.{Job, due}
use auto_cert_x.Job.Lifecycle.{
  claim, mark_running, renew, mark_succeeded, mark_failed, mark_timed_out, expire_lease,
  schedule_retry, cancel,
}

-- What no transition changes.
pub record SameJob (j n : Job) : Type 0 where
  pub same_id : n.id ≡ j.id
  pub same_tenant : n.tenant_id ≡ j.tenant_id
  pub same_project : n.project_id ≡ j.project_id
  pub same_environment : n.environment_id ≡ j.environment_id
  pub same_key : n.idempotency_key ≡ j.idempotency_key
  pub same_max : n.max_attempts ≡ j.max_attempts

pub SameJob-refl : (j : Job) → SameJob j j
SameJob-refl j = ground arith

pub SameJob-trans : {j m n : Job} → SameJob j m → SameJob m n → SameJob j n
SameJob-trans a b = ground arith

-- One transition: the same job, at the next version.
pub record Continues (j n : Job) : Type 0 where
  pub same : SameJob j n
  pub next_version : n.version ≡ inc64 j.version

-- The worker holds the lease of the job, and the lease has not run out.
pub record Holds (j : Job) (w : String) (now : Time) : Type 0 where
  pub named : trim_space w ≢ ""
  pub owner : trim_space w ≡ j.lease_owner
  pub alive : now < j.lease_expire_at

module _ (j : Job) (w : String) (now : Time) {n : Job} where
  pub mark_running-Continues : mark_running j w now ≡ ok n → Continues j n
  unfolding mark_running
  mark_running-Continues h = ground arith

  pub mark_running-Holds : mark_running j w now ≡ ok n → Holds j w now
  unfolding mark_running
  mark_running-Holds h =
      ground (arith, eq_iff j.lease_owner (trim_space w), eq_iff (trim_space w) "")

  pub mark_running_effect :
      mark_running j w now ≡ ok n
      → (j.status ≡ claimed)
        × (n.status ≡ running)
        × (n.lease_owner ≡ j.lease_owner)
        × (n.lease_expire_at ≡ j.lease_expire_at)
        × (n.attempt_count ≡ j.attempt_count)
  unfolding mark_running
  mark_running_effect h = ground arith

  pub mark_succeeded-Continues : mark_succeeded j w now ≡ ok n → Continues j n
  unfolding mark_succeeded
  mark_succeeded-Continues h = ground arith

  pub mark_succeeded-Holds : mark_succeeded j w now ≡ ok n → Holds j w now
  unfolding mark_succeeded
  mark_succeeded-Holds h =
      ground (arith, eq_iff j.lease_owner (trim_space w), eq_iff (trim_space w) "")

  pub mark_succeeded_effect :
      mark_succeeded j w now ≡ ok n
      → (is_leased j.status ≡ true) × (n.status ≡ succeeded) × (n.attempt_count ≡ j.attempt_count)
  unfolding mark_succeeded
  mark_succeeded_effect h = ground arith

module _ (j : Job) (w : String) (f : Failure) (now : Time) {n : Job} where
  pub mark_failed-Continues : mark_failed j w f now ≡ ok n → Continues j n
  unfolding mark_failed
  mark_failed-Continues h = ground arith

  pub mark_failed-Holds : mark_failed j w f now ≡ ok n → Holds j w now
  unfolding mark_failed
  mark_failed-Holds h =
      ground (arith, eq_iff j.lease_owner (trim_space w), eq_iff (trim_space w) "")

  pub mark_failed_effect :
      mark_failed j w f now ≡ ok n
      → (is_leased j.status ≡ true) × (n.status ≡ failed) × (n.attempt_count ≡ j.attempt_count)
  unfolding mark_failed
  mark_failed_effect h = ground arith

  pub mark_timed_out-Continues : mark_timed_out j w f now ≡ ok n → Continues j n
  unfolding mark_timed_out
  mark_timed_out-Continues h = ground arith

  pub mark_timed_out-Holds : mark_timed_out j w f now ≡ ok n → Holds j w now
  unfolding mark_timed_out
  mark_timed_out-Holds h =
      ground (arith, eq_iff j.lease_owner (trim_space w), eq_iff (trim_space w) "")

  pub mark_timed_out_effect :
      mark_timed_out j w f now ≡ ok n
      → (is_leased j.status ≡ true) × (n.status ≡ timed_out) × (n.attempt_count ≡ j.attempt_count)
  unfolding mark_timed_out
  mark_timed_out_effect h = ground arith

module _ (j : Job) (w : String) (ttl : Duration) (now : Time) {n : Job} where
  pub renew-Continues : renew j w ttl now ≡ ok n → Continues j n
  unfolding renew
  renew-Continues h = ground arith

  pub renew-Holds : renew j w ttl now ≡ ok n → Holds j w now
  unfolding renew
  renew-Holds h = ground (arith, eq_iff j.lease_owner (trim_space w), eq_iff (trim_space w) "")

  pub renew_effect :
      renew j w ttl now ≡ ok n
      → (is_leased j.status ≡ true)
        × (n.status ≡ j.status)
        × (n.lease_owner ≡ j.lease_owner)
        × (n.lease_expire_at ≡ add_time now ttl)
        × (n.attempt_count ≡ j.attempt_count)
  unfolding renew
  renew_effect h = ground arith

module _ (j : Job) (w : String) (ttl : Duration) (now : Time) (fresh : Option String) {n : Job}
    {a : Attempt} where
  pub claim-Continues : claim j w ttl now fresh ≡ ok (n, a) → Continues j n
  unfolding claim
  claim-Continues h = ground arith

  pub claim_effect :
      claim j w ttl now fresh ≡ ok (n, a)
      → (can_claim j.status ≡ true)
        × (due j now ≡ true)
        × (n.status ≡ claimed)
        × (n.lease_owner ≡ trim_space w)
        × (n.lease_expire_at ≡ add_time now ttl)
        × (n.attempt_count ≡ j.attempt_count + 1)
  unfolding claim
  claim_effect h = ground arith

  pub claim-attempt_effect :
      claim j w ttl now fresh ≡ ok (n, a)
      → (is_active a ≡ true)
        × (a.worker_id ≡ n.lease_owner)
        × (a.attempt_no ≡ n.attempt_count)
        × (a.job_id ≡ trim_space j.id)
  unfolding claim is_active
  claim-attempt_effect h = ground (arith, trim_space_idem w)

module _ (j : Job) (now : Time) (f : Failure) {n : Job} {s : AttemptStatus} where
  pub expire_lease-Continues : expire_lease j now f ≡ ok (n, s) → Continues j n
  unfolding expire_lease
  expire_lease-Continues h = ground arith

  pub expire_lease_effect :
      expire_lease j now f ≡ ok (n, s)
      → (is_leased j.status ≡ true)
        × (j.lease_expire_at ≤ now)
        × (n.status ≡ timed_out)
        × (n.attempt_count ≡ j.attempt_count)
  unfolding expire_lease
  expire_lease_effect h = ground arith

module _ (j : Job) (delay : Duration) (now : Time) {n : Job} where
  pub schedule_retry-Continues : schedule_retry j delay now ≡ ok n → Continues j n
  unfolding schedule_retry
  schedule_retry-Continues h = ground arith

  pub schedule_retry_effect :
      schedule_retry j delay now ≡ ok n
      → (is_leased j.status ≡ false)
        × (j.attempt_count < j.max_attempts)
        × (n.status ≡ retry)
        × (n.next_run_at ≡ add_time now delay)
        × (n.attempt_count ≡ j.attempt_count)
  unfolding schedule_retry is_leased
  schedule_retry_effect h = ground arith

module _ (j : Job) (now : Time) {n : Job} where
  pub cancel-Continues : cancel j now ≡ ok n → Continues j n
  unfolding cancel
  cancel-Continues h = ground arith

  pub cancel_effect :
      cancel j now ≡ ok n
      → (can_cancel j.status ≡ true) × (n.status ≡ cancelled) × (n.attempt_count ≡ j.attempt_count)
  unfolding cancel
  cancel_effect h = ground arith
