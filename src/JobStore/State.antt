-- ===== src/JobStore/State.antt =====
-- internal/application/command/jobs/memory_repository.go: the three maps of the repository, the
-- lookups under its lock, and the order in which jobs are claimed and reaped. Every method holds
-- the mutex throughout, so a method is one step from a store to a store; `cloneJob` and
-- `cloneAttempt` copy values, which records here are.
use Prim.Native.String.{compare}
use auto_cert_x.Prelude.{
  ℕ, suc, String, Bool, not, ◌&&◌, Option, none, some, List, [], ◌∷◌, map, ok, err, eqb, ◌==◌,
  if◌then◌else◌,
}
use text.Mathlib.Text.{is_lt}
use auto_cert_x.Prelude.Int.{ltb_ℤ, eqb_ℤ}
use auto_cert_x.Prelude.Sorting.{filter, sort_by}
use auto_cert_x.Text.{trim_space}
use auto_cert_x.Dict.{Dict, lookup, lookup_list}
use auto_cert_x.Job.Errors.{Outcome, job_not_found, attempt_not_found, lease_owner_mismatch}
use auto_cert_x.Job.Clock.{Time, before}
use auto_cert_x.Job.Status.{can_claim, is_leased}
use auto_cert_x.Job.Attempt.{Attempt, is_active}
use auto_cert_x.Job.Record.{Job, zero_job, due, lease_expired_at}

pub record Store : Type 0 where
  pub jobs : Dict Job
  pub attempts : Dict (List Attempt)
  pub idempotency : Dict String

-- `NewMemoryRepository`
abbrev pub empty : Store
empty = record { jobs = []; attempts = []; idempotency = [] }

-- `requireJobLocked`
unfoldable pub require_job : Store → String → Outcome Job
require_job s job_id = elim (lookup (trim_space job_id) s.jobs) [
  | none ↦ err job_not_found
  | some j ↦ ok j
]

-- `r.jobs[id]`: a missing key reads as the zero job.
unfoldable pub stored_job : Store → String → Job
stored_job s id = elim (lookup id s.jobs) [ none ↦ zero_job | some j ↦ j ]

-- The last attempt that is active, with its position: the loop runs from the end.
unfoldable pub last_active : List Attempt → Option (Attempt × ℕ)
last_active [] = none
last_active (a ∷ later) = elim (last_active later) [
  | some (b, i) ↦ some (b, suc i)
  | none ↦ if is_active a then some (a, 0) else none
]

-- `activeAttemptLocked`
unfoldable pub active_attempt : Store → String → String → Outcome (Attempt × ℕ)
active_attempt s job_id worker_id = elim (last_active (lookup_list job_id s.attempts)) [
  | none ↦ err attempt_not_found
  | some (a, i) ↦
      if not (trim_space worker_id == "") && not (a.worker_id == trim_space worker_id)
      then err lease_owner_mismatch
      else ok (a, i)
]

-- Priority, then the scheduled time, then the age, then the id.
unfoldable pub claims_before : Job → Job → Bool
claims_before left right =
    if not (eqb_ℤ left.priority right.priority)
    then ltb_ℤ left.priority right.priority
    else if not (eqb left.next_run_at right.next_run_at)
    then before left.next_run_at right.next_run_at
    else if not (eqb left.created_at right.created_at)
    then before left.created_at right.created_at
    else is_lt (compare left.id right.id)

unfoldable pub reaps_before : Job → Job → Bool
reaps_before left right =
    if not (eqb left.lease_expire_at right.lease_expire_at)
    then before left.lease_expire_at right.lease_expire_at
    else is_lt (compare left.id right.id)

abbrev by_value : (Job → Job → Bool) → String × Job → String × Job → Bool
by_value less (i, left) (j, right) = less left right

-- `claimableIDsLocked`
unfoldable pub claimable_ids : Store → Time → List String
unfolding claims_before sort_by filter
claimable_ids s now =
    map (λ e. e.0)
      (sort_by (by_value claims_before)
        (filter (λ e. can_claim (e.1).status && due e.1 now) s.jobs))

-- `expiredLeaseIDsLocked`
unfoldable pub expired_lease_ids : Store → Time → List String
unfolding reaps_before sort_by filter
expired_lease_ids s now =
    map (λ e. e.0)
      (sort_by (by_value reaps_before)
        (filter (λ e. is_leased (e.1).status && lease_expired_at e.1 now) s.jobs))
