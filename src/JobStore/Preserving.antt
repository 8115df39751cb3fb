-- ===== src/JobStore/Preserving.antt =====
-- Every command on a stored job keeps the repository of
-- internal/application/command/jobs/memory_repository.go consistent, where it fails too.
use auto_cert_x.Prelude.{ℕ, ◌≡◌, refl, sym, ap, ◌∙◌, subst, true, ok}
use auto_cert_x.Dict.{lookup_list}
use auto_cert_x.Job.Status.{Status, is_leased}
use auto_cert_x.Job.Attempt
use auto_cert_x.Job.Attempt.{Attempt, Failure}
use auto_cert_x.Job.AttemptEffects
use auto_cert_x.Job.Record.{Job}
use auto_cert_x.Job.Lifecycle
use auto_cert_x.Job.Effects
use auto_cert_x.Job.Effects.{SameJob-trans}
use auto_cert_x.Job.Invariant
use auto_cert_x.JobStore.Params.{MarkRunningParams, HeartbeatParams, CompleteParams}
use auto_cert_x.JobStore.Leaves.{Leaves-bind, Leaves-ok, commit-Leaves}
use auto_cert_x.JobStore.State.{Store, require_job, active_attempt}
use auto_cert_x.JobStore.Commands.{
  put_job, put_attempt, mark_running, heartbeat, complete, failure_of, complete_locked, with_retry,
}
use auto_cert_x.JobStore.Invariant.{IsConsistent}
use auto_cert_x.JobStore.Lookups.{require_job-own_id, require_job-IsStored, active_attempt-FoundAt}
use auto_cert_x.JobStore.Rewrites.{
  put_job-IsConsistent, put_attempts-IsConsistent, HasHistory-kept, HasHistory-renewed,
  HasHistory-closed,
}
use auto_cert_x.JobStore.Completing.{complete_locked-Finishes, Settles, with_retry-Settles}

leased_of : {s t : Status} → s ≡ t → is_leased t ≡ true → is_leased s ≡ true
leased_of e h = ap is_leased e ∙ h

-- `MarkRunning` keeps the repository consistent.
pub mark_running-IsConsistent :
    (s : Store) (p : MarkRunningParams) → IsConsistent s → IsConsistent (mark_running s p).1
unfolding mark_running
mark_running-IsConsistent s p c = commit-Leaves {P = IsConsistent} s _ c (
    Leaves-bind (require_job s p.job_id) _ λ j ej.
      Leaves-bind (active_attempt s j.id p.worker_id) _ λ found ea.
        Leaves-bind (Lifecycle.mark_running j p.worker_id p.now) _
          λ n en. Leaves-ok n (put_job s j.id n) (running_kept j n found ej ea en))
  where
    running_kept :
        (j n : Job) (found : Attempt × ℕ)
        → require_job s p.job_id ≡ ok j
        → active_attempt s j.id p.worker_id ≡ ok found
        → Lifecycle.mark_running j p.worker_id p.now ≡ ok n
        → IsConsistent (put_job s j.id n)
    running_kept j n found ej ea en =
        let stored = require_job-IsStored s p.job_id c ej in
        let (leased, at) = active_attempt-FoundAt s j.id p.worker_id j found.0 found.1 stored ea in
        let (was, status, owner, expiry, count) =
          Effects.mark_running_effect j p.worker_id p.now en in
        put_job-IsConsistent s j.id j n c (require_job-own_id s p.job_id c ej)
          (Effects.mark_running-Continues j p.worker_id p.now en).same
          (Invariant.mark_running-IsWellFormed j p.worker_id p.now stored.well_formed en)
          (HasHistory-kept j n (lookup_list j.id s.attempts) stored.history count leased owner
            (leased_of status (unfold is_leased in refl)))

-- `Heartbeat` keeps the repository consistent.
pub heartbeat-IsConsistent :
    (s : Store) (p : HeartbeatParams) → IsConsistent s → IsConsistent (heartbeat s p).1
unfolding heartbeat
heartbeat-IsConsistent s p c = commit-Leaves {P = IsConsistent} s _ c (
    Leaves-bind (require_job s p.job_id) _ λ j ej.
      Leaves-bind (Lifecycle.renew j p.worker_id p.lease_ttl p.now) _ λ n en.
        Leaves-bind (active_attempt s j.id p.worker_id) _ λ found ea.
          Leaves-bind (Attempt.heartbeat found.0 p.now) _ λ b eb.
            Leaves-ok _ (put_attempt (put_job s j.id n) j.id found.1 b)
              (renewed_kept j n found b ej en ea eb))
  where
    renewed_kept :
        (j n : Job) (found : Attempt × ℕ) (b : Attempt)
        → require_job s p.job_id ≡ ok j
        → Lifecycle.renew j p.worker_id p.lease_ttl p.now ≡ ok n
        → active_attempt s j.id p.worker_id ≡ ok found
        → Attempt.heartbeat found.0 p.now ≡ ok b
        → IsConsistent (put_attempt (put_job s j.id n) j.id found.1 b)
    renewed_kept j n found b ej en ea eb =
        let stored = require_job-IsStored s p.job_id c ej in
        let (leased, at) = active_attempt-FoundAt s j.id p.worker_id j found.0 found.1 stored ea in
        let (was, status, owner, expiry, count) =
          Effects.renew_effect j p.worker_id p.lease_ttl p.now en in
        put_attempts-IsConsistent s j.id j n c (require_job-own_id s p.job_id c ej)
          (Effects.renew-Continues j p.worker_id p.lease_ttl p.now en).same
          (Invariant.renew-IsWellFormed j p.worker_id p.lease_ttl p.now stored.well_formed en) _
          (HasHistory-renewed j n (lookup_list j.id s.attempts) stored.history count found.0 b
            found.1 at (AttemptEffects.heartbeat-SameAttempt found.0 p.now eb)
            (AttemptEffects.heartbeat_effect found.0 p.now eb).1 owner (leased_of status was))

-- `Complete` keeps the repository consistent.
pub complete-IsConsistent :
    (s : Store) (p : CompleteParams) → IsConsistent s → IsConsistent (complete s p).1
unfolding complete
complete-IsConsistent s p c = commit-Leaves {P = IsConsistent} s _ c (
    Leaves-bind (require_job s p.job_id) _ λ j ej.
      Leaves-bind (active_attempt s j.id p.worker_id) _ λ found ea.
        Leaves-bind (complete_locked j found.0 p (failure_of p) p.result_status) _ λ done ed.
          Leaves-ok _ _ (completed_kept j (with_retry p done.0).0 found done ej ea ed refl))
  where
    completed_kept :
        (j m : Job) (found : Attempt × ℕ) (done : Job × Attempt)
        → require_job s p.job_id ≡ ok j
        → active_attempt s j.id p.worker_id ≡ ok found
        → complete_locked j found.0 p (failure_of p) p.result_status ≡ ok done
        → m ≡ (with_retry p done.0).0
        → IsConsistent (put_attempt (put_job s j.id m) j.id found.1 done.1)
    completed_kept j m found done ej ea ed em =
        let stored = require_job-IsStored s p.job_id c ej in
        let (leased, at) = active_attempt-FoundAt s j.id p.worker_id j found.0 found.1 stored ea in
        let (fin, holds) =
          complete_locked-Finishes j found.0 p (failure_of p) p.result_status stored.well_formed
            ed in
        let settled : Settles done.0 m =
          subst (λ x. Settles done.0 x) (sym em)
            (with_retry-Settles p done.0 fin.well_formed fin.free) in
        put_attempts-IsConsistent s j.id j m c (require_job-own_id s p.job_id c ej)
          (SameJob-trans fin.same settled.same) settled.well_formed _
          (HasHistory-closed j m (lookup_list j.id s.attempts) stored.history
            (settled.same_count ∙ fin.same_count) found.0 done.1 found.1 at fin.closes settled.free)
