-- ===== src/JobStore/Commands.antt =====
-- internal/application/command/jobs/memory_repository.go: creating, claiming, running, renewing,
-- completing and cancelling. A command returns its outcome and the store that it leaves, also where
-- it fails.
use auto_cert_x.Prelude.{
  ℕ, ◌+◌, String, Bool, true, false, not, ◌&&◌, Option, none, some, List, [], ◌∷◌, ◌++◌, ok, err,
  ◌>>=◌, length, set, leb, ◌==◌, if◌then◌else◌,
}
use auto_cert_x.Prelude.Int.{ℤ, pos, negsuc}
use auto_cert_x.Text.{trim_space}
use auto_cert_x.Dict.{lookup, insert, lookup_list}
use auto_cert_x.Job.Errors.{Outcome, invalid_job, duplicate_job}
use auto_cert_x.Job.Clock.{Time}
use auto_cert_x.Job.Status.{Status}
use auto_cert_x.Job.AttemptStatus.{AttemptStatus}
use auto_cert_x.Job.Attempt
use auto_cert_x.Job.Attempt.{Attempt, Failure}
use auto_cert_x.Job.Record.{Job, can_retry}
use auto_cert_x.Job.Lifecycle
use auto_cert_x.JobStore.Params.{
  PlannedJob, ClaimParams, ClaimedJob, MarkRunningParams, HeartbeatParams, HeartbeatResult,
  CompleteParams, CompletionResult, CancelParams,
}
use auto_cert_x.JobStore.State.{Store, require_job, stored_job, active_attempt, claimable_ids}

-- A command that writes only where it succeeds.
abbrev pub commit : {A : Type 0} → Store → Outcome (A × Store) → Outcome A × Store
commit s (ok (a, s')) = (ok a, s')
commit s (err e) = (err e, s)

abbrev pub put_job : Store → String → Job → Store
put_job s k j = record s { jobs = insert k j s.jobs }

abbrev pub put_attempts : Store → String → List Attempt → Store
put_attempts s k history = record s { attempts = insert k history s.attempts }

-- `r.attempts[id][index] = attempt`
abbrev pub put_attempt : Store → String → ℕ → Attempt → Store
put_attempt s k i a = put_attempts s k (set (lookup_list k s.attempts) i a)

-- a record under its id and its idempotency key
abbrev pub put_new : Store → Job → Store
put_new s j = record (put_job s j.id j) {
  idempotency = insert j.idempotency_key j.id s.idempotency;
}

-- an index entry that holds no id counts as free
abbrev is_taken : Option String → Bool
is_taken none = false
is_taken (some id) = not (id == "")

unfoldable pub create : Store → Job → Outcome Unit × Store
create s j =
    if is_taken (lookup j.idempotency_key s.idempotency)
    then (err duplicate_job, s)
    else (ok tt, put_new s j)

unfoldable pub ensure_planned : Store → Job → Outcome PlannedJob × Store
unfolding stored_job
ensure_planned s j = elim (lookup j.idempotency_key s.idempotency) [
  | none ↦ (ok (record { job = j; created = true }), put_new s j)
  | some id ↦ (ok (record { job = stored_job s id; created = false }), s)
]

-- `params.MaxJobs <= 0` claims one job
unfoldable pub effective_max_jobs : ℤ → ℕ
effective_max_jobs (pos n) = if leb n 0 then 1 else n
effective_max_jobs (negsuc n) = 1

-- One round of the loop: a job that cannot be claimed is passed over. `fresh` is the id drawn for
-- the attempt.
unfoldable pub claim_record :
    ClaimParams → Option String → String → Job → List ClaimedJob × Store → List ClaimedJob × Store
claim_record p fresh id j (results, s) =
    elim (Lifecycle.claim j p.worker_id p.lease_ttl p.now fresh) [
      | err e ↦ (results, s)
      | ok (next, attempt) ↦ (
        results ++ record { job = next; attempt = attempt } ∷ [],
        put_attempts (put_job s id next) id (lookup_list id s.attempts ++ attempt ∷ []),
      )
    ]

unfoldable pub claim_one :
    ClaimParams → Option String → String → List ClaimedJob × Store → List ClaimedJob × Store
unfolding claim_record stored_job
claim_one p fresh id (results, s) = claim_record p fresh id (stored_job s id) (results, s)

-- `fresh k` is drawn in round `k`.
unfoldable pub claim_loop :
    ClaimParams
    → (ℕ → Option String)
    → ℕ
    → List String
    → List ClaimedJob × Store
    → List ClaimedJob × Store
unfolding claim_one effective_max_jobs
claim_loop p fresh k [] acc = acc
claim_loop p fresh k (id ∷ ids) (results, s) =
    if leb (effective_max_jobs p.max_jobs) (length results)
    then (results, s)
    else claim_loop p fresh (k + 1) ids (claim_one p (fresh k) id (results, s))

unfoldable pub claim : Store → ClaimParams → (ℕ → Option String) → Outcome (List ClaimedJob) × Store
claim s p fresh =
    if trim_space p.worker_id == ""
    then (err invalid_job, s)
    else let (results, s') = claim_loop p fresh 0 (claimable_ids s p.now) ([], s) in
      (ok results, s')

unfoldable pub mark_running : Store → MarkRunningParams → Outcome Job × Store
mark_running s p = commit s (do
  j ← require_job s p.job_id
  found ← active_attempt s j.id p.worker_id
  next ← Lifecycle.mark_running j p.worker_id p.now
  ok (next, put_job s j.id next))

unfoldable pub heartbeat : Store → HeartbeatParams → Outcome HeartbeatResult × Store
heartbeat s p = commit s (do
  j ← require_job s p.job_id
  next ← Lifecycle.renew j p.worker_id p.lease_ttl p.now
  found ← active_attempt s j.id p.worker_id
  attempt ← Attempt.heartbeat found.0 p.now
  ok (
    record { job = next; attempt = attempt },
    put_attempt (put_job s j.id next) j.id found.1 attempt,
  ))

-- `completeLocked`: `failed` and every unknown status end as a failure.
unfoldable pub complete_locked :
    Job → Attempt → CompleteParams → Failure → AttemptStatus → Outcome (Job × Attempt)
complete_locked j a p failure AttemptStatus.succeeded = do
  next ← Lifecycle.mark_succeeded j p.worker_id p.now
  attempt ← Attempt.mark_succeeded a p.now p.evidence_ref
  ok (next, attempt)
complete_locked j a p failure AttemptStatus.timed_out = do
  next ← Lifecycle.mark_timed_out j p.worker_id failure p.now
  attempt ← Attempt.mark_timed_out a p.now failure
  ok (next, attempt)
complete_locked j a p failure AttemptStatus.abandoned = do
  next ← Lifecycle.mark_timed_out j p.worker_id failure p.now
  attempt ← Attempt.mark_abandoned a p.now failure
  ok (next, attempt)
complete_locked j a p failure _ = do
  next ← Lifecycle.mark_failed j p.worker_id failure p.now
  attempt ← Attempt.mark_failed a p.now failure
  ok (next, attempt)

abbrev is_succeeded : Status → Bool
is_succeeded Status.succeeded = true
is_succeeded _ = false

-- the retry, or the job as it is where it is not scheduled
abbrev pub retried_or : Job → Outcome Job → Job × Bool
retried_or j (ok next) = (next, true)
retried_or j (err e) = (j, false)

unfoldable pub with_retry : CompleteParams → Job → Job × Bool
with_retry p j =
    if p.retryable && can_retry j && not (is_succeeded j.status)
    then retried_or j (Lifecycle.schedule_retry j p.retry_delay p.now)
    else (j, false)

abbrev pub failure_of : CompleteParams → Failure
failure_of p = record { code = p.error_code; message = p.error_message }

unfoldable pub complete : Store → CompleteParams → Outcome CompletionResult × Store
unfolding complete_locked with_retry
complete s p = commit s (do
  j ← require_job s p.job_id
  found ← active_attempt s j.id p.worker_id
  finished ← complete_locked j found.0 p (failure_of p) p.result_status
  let outcome = with_retry p finished.0
  ok (
    record { job = outcome.0; attempt = finished.1; retry_scheduled = outcome.1 },
    put_attempt (put_job s j.id outcome.0) j.id found.1 finished.1,
  ))

abbrev pub cancelled_failure : Failure
cancelled_failure = record { code = "cancelled"; message = "job cancelled" }

-- The active attempt of the owner, if there is one, is abandoned before the job is tested.
unfoldable pub abandon_active : Store → Job → Time → Store
abandon_active s j now = elim (active_attempt s j.id j.lease_owner) [
  | err e ↦ s
  | ok (a, i) ↦ elim (Attempt.mark_abandoned a now cancelled_failure) [
    | err e ↦ s
    | ok closed ↦ put_attempt s j.id i closed
  ]
]

abbrev pub cancel_job : Store → Job → Outcome Job → Outcome Job × Store
cancel_job s j (ok next) = (ok next, put_job s j.id next)
cancel_job s j (err e) = (err e, s)

abbrev pub cancel_found : Store → CancelParams → Outcome Job → Outcome Job × Store
cancel_found s p (ok j) = cancel_job (abandon_active s j p.now) j (Lifecycle.cancel j p.now)
cancel_found s p (err e) = (err e, s)

unfoldable pub cancel : Store → CancelParams → Outcome Job × Store
unfolding abandon_active
cancel s p = cancel_found s p (require_job s p.job_id)
