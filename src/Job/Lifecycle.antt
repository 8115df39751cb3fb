-- ===== src/Job/Lifecycle.antt =====
-- internal/domain/job/job.go: the transitions of a job. A method on a value receiver returns the
-- new record; the caller keeps the old one where it returns an error.
use auto_cert_x.Prelude.{
  ◌+◌, String, Bool, true, false, not, ◌||◌, Option, ok, ◌>>=◌, ◌>>◌, reject_if, ◌==◌,
}
use auto_cert_x.Prelude.Int.{is_nonpos, is_negative}
use auto_cert_x.Text.{trim_space}
use auto_cert_x.Job.Errors.{
  Outcome, invalid_job, invalid_transition, job_not_schedulable, lease_not_held, lease_expired,
  job_not_retryable,
}
use auto_cert_x.Job.Clock.{Time, Duration, add_time, normalize_time}
use auto_cert_x.Job.Status.{
  Status, can_claim, can_cancel, is_leased, claimed, running, retry, succeeded, failed, cancelled,
  timed_out,
}
use auto_cert_x.Job.AttemptStatus.{AttemptStatus}
use auto_cert_x.Job.Attempt.{Attempt, Failure, new_attempt}
use auto_cert_x.Job.Record.{
  Job, due, lease_active, lease_expired_at, can_retry, clear_lease, apply_failure, touch,
  require_lease_owner, require_active_execution,
}

-- The claimed record and its first attempt; the id of the attempt is drawn by `NewAttempt`.
unfoldable pub claim : Job → String → Duration → Time → Option String → Outcome (Job × Attempt)
unfolding new_attempt due lease_active can_claim
claim j worker lease_ttl at fresh = do
  let now = normalize_time at
  let owner = trim_space worker
  reject_if (owner == "") invalid_job
  reject_if (is_nonpos lease_ttl) invalid_job
  reject_if (not (can_claim j.status) || not (due j now)) job_not_schedulable
  reject_if (lease_active j now) lease_not_held
  let next =
      touch
        (record j {
          status = claimed;
          lease_owner = owner;
          lease_expire_at = add_time now lease_ttl;
          attempt_count = j.attempt_count + 1;
        })
        now
  attempt ← new_attempt next.id next.attempt_count owner now fresh
  ok (next, attempt)

abbrev is_claimed : Status → Bool
is_claimed claimed = true
is_claimed _ = false

unfoldable pub mark_running : Job → String → Time → Outcome Job
unfolding require_lease_owner
mark_running j owner at = do
  require_lease_owner j owner (normalize_time at)
  reject_if (not (is_claimed j.status)) invalid_transition
  ok (touch (record j { status = running }) (normalize_time at))

unfoldable pub renew : Job → String → Duration → Time → Outcome Job
unfolding require_lease_owner is_leased
renew j owner lease_ttl at = do
  let now = normalize_time at
  reject_if (is_nonpos lease_ttl) invalid_job
  reject_if (not (is_leased j.status)) invalid_transition
  require_lease_owner j owner now
  ok (touch (record j { lease_expire_at = add_time now lease_ttl }) now)

unfoldable pub mark_succeeded : Job → String → Time → Outcome Job
unfolding require_active_execution
mark_succeeded j owner at = do
  let now = normalize_time at
  require_active_execution j owner now
  let next = record j { status = succeeded; last_error_code = ""; last_error_message = "" }
  ok (touch (clear_lease next) now)

unfoldable pub mark_failed : Job → String → Failure → Time → Outcome Job
unfolding require_active_execution
mark_failed j owner failure at = do
  let now = normalize_time at
  require_active_execution j owner now
  ok (touch (clear_lease (apply_failure (record j { status = failed }) failure)) now)

unfoldable pub mark_timed_out : Job → String → Failure → Time → Outcome Job
unfolding require_active_execution
mark_timed_out j owner failure at = do
  let now = normalize_time at
  require_active_execution j owner now
  ok (touch (clear_lease (apply_failure (record j { status = timed_out }) failure)) now)

-- How the attempt of a job with an expired lease ends.
abbrev expired_attempt_status : Status → AttemptStatus
expired_attempt_status claimed = AttemptStatus.abandoned
expired_attempt_status _ = AttemptStatus.timed_out

unfoldable pub expire_lease : Job → Time → Failure → Outcome (Job × AttemptStatus)
unfolding lease_expired_at is_leased
expire_lease j at failure = do
  let now = normalize_time at
  reject_if (not (is_leased j.status)) invalid_transition
  reject_if (not (lease_expired_at j now)) lease_expired
  let next = touch (clear_lease (apply_failure (record j { status = timed_out }) failure)) now
  ok (next, expired_attempt_status j.status)

abbrev is_retryable_status : Status → Bool
is_retryable_status failed = true
is_retryable_status timed_out = true
is_retryable_status _ = false

unfoldable pub schedule_retry : Job → Duration → Time → Outcome Job
unfolding can_retry
schedule_retry j delay at = do
  let now = normalize_time at
  reject_if (is_negative delay) invalid_job
  reject_if (not (is_retryable_status j.status)) invalid_transition
  reject_if (not (can_retry j)) job_not_retryable
  let next = record j { status = retry; next_run_at = add_time now delay }
  ok (touch (clear_lease next) now)

unfoldable pub cancel : Job → Time → Outcome Job
unfolding can_cancel
cancel j at = do
  let now = normalize_time at
  reject_if (not (can_cancel j.status)) invalid_transition
  ok (touch (clear_lease (record j { status = cancelled })) now)
