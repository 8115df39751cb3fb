-- ===== src/JobStore/Reaping.antt =====
-- internal/application/command/jobs/memory_repository.go: `ReapExpired` and the queries.
use auto_cert_x.Prelude.{
  String, Bool, false, none, some, List, [], ◌∷◌, ◌++◌, ok, err, ◌>>=◌, take, ltb, if◌then◌else◌,
}
use auto_cert_x.Prelude.Int.{ℤ, pos, negsuc}
use auto_cert_x.Text.{trim_space}
use auto_cert_x.Dict.{lookup, lookup_list}
use auto_cert_x.Job.Errors.{Outcome, job_not_found}
use auto_cert_x.Job.Clock.{Time}
use auto_cert_x.Job.AttemptStatus.{AttemptStatus}
use auto_cert_x.Job.Attempt
use auto_cert_x.Job.Attempt.{Attempt, Failure}
use auto_cert_x.Job.Record.{Job, can_retry}
use auto_cert_x.Job.Lifecycle
use auto_cert_x.JobStore.Params.{ReapParams, ReapedLease}
use auto_cert_x.JobStore.State.{Store, require_job, stored_job, active_attempt, expired_lease_ids}
use auto_cert_x.JobStore.Commands.{put_job, put_attempt, retried_or}

abbrev pub expired_failure : String → Failure
expired_failure message = record { code = "lease_expired"; message = message }

-- the `switch` on the attempt status that `ExpireLease` returns
unfoldable pub close_attempt : Attempt → Time → AttemptStatus → Outcome Attempt
close_attempt a now AttemptStatus.abandoned =
    Attempt.mark_abandoned a now (expired_failure "worker lost before execution started")
close_attempt a now _ =
    Attempt.mark_timed_out a now (expired_failure "worker lost during execution")

unfoldable pub retry_expired : ReapParams → Job → Job × Bool
retry_expired p j =
    if can_retry j
    then retried_or j (Lifecycle.schedule_retry j (p.delay j.attempt_count) p.now)
    else (j, false)

unfoldable pub reap_record : ReapParams → Store → String → Job → Outcome (ReapedLease × Store)
unfolding close_attempt retry_expired
reap_record p s id j = do
  found ← active_attempt s j.id j.lease_owner
  expired ←
      Lifecycle.expire_lease j p.now (expired_failure "worker lease expired before completion")
  attempt ← close_attempt found.0 p.now expired.1
  let outcome = retry_expired p expired.0
  ok (
    record { job = outcome.0; attempt = attempt; retry_scheduled = outcome.1 },
    put_attempt (put_job s id outcome.0) id found.1 attempt,
  )

unfoldable pub reap_one : ReapParams → Store → String → Outcome (ReapedLease × Store)
unfolding reap_record stored_job
reap_one p s id = reap_record p s id (stored_job s id)

-- An error ends the loop, and what earlier rounds wrote stays written.
unfoldable pub reap_loop :
    ReapParams → List String → List ReapedLease → Store → Outcome (List ReapedLease) × Store
reap_loop p [] results s = (ok results, s)
reap_loop p (id ∷ ids) results s = elim (reap_one p s id) [
  | err e ↦ (err e, s)
  | ok (reaped, s') ↦ reap_loop p ids (results ++ reaped ∷ []) s'
]

-- `params.Limit > 0 && len(ids) > params.Limit`
unfoldable pub limited : ℤ → List String → List String
limited (pos n) ids = if ltb 0 n then take n ids else ids
limited (negsuc n) ids = ids

unfoldable pub reap_expired : Store → ReapParams → Outcome (List ReapedLease) × Store
unfolding reap_loop limited
reap_expired s p = reap_loop p (limited p.limit (expired_lease_ids s p.now)) [] s

-- `Get`
unfoldable pub get : Store → String → Outcome Job
unfolding require_job
get s job_id = require_job s job_id

unfoldable pub get_by_idempotency : Store → String → Outcome Job
get_by_idempotency s key = elim (lookup (trim_space key) s.idempotency) [
  | none ↦ err job_not_found
  | some id ↦ elim (lookup id s.jobs) [ none ↦ err job_not_found | some j ↦ ok j ]
]

-- `Attempts` tests the trimmed id and then reads under the id as given.
unfoldable pub attempts_of : Store → String → Outcome (List Attempt)
unfolding require_job
attempts_of s job_id = do j ← require_job s job_id; ok (lookup_list job_id s.attempts)
