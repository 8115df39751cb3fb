-- ===== src/JobStore/Frames.antt =====
-- What a command of internal/application/command/jobs/memory_repository.go does not touch.
use auto_cert_x.Prelude.{String, ◌≡◌, ◌≢◌, refl, ◌∙◌, Bool, true, false, some, List, arith, eq_iff}
use auto_cert_x.Dict.{lookup, lookup_list, lookup-insert, lookup_list-insert}
use auto_cert_x.Job.Status.{is_leased}
use auto_cert_x.Job.Attempt
use auto_cert_x.Job.Attempt.{Attempt}
use auto_cert_x.Job.Record.{Job}
use auto_cert_x.Job.Lifecycle
use auto_cert_x.Job.Effects
use auto_cert_x.JobStore.Params.{MarkRunningParams, HeartbeatParams, CompleteParams}
use auto_cert_x.JobStore.State.{Store, require_job, active_attempt}
use auto_cert_x.JobStore.Commands.{
  put_job, put_attempts, mark_running, heartbeat, complete, complete_locked, with_retry, failure_of,
}
use auto_cert_x.JobStore.Leaves.{Leaves-bind, Leaves-ok, commit-Leaves}
use auto_cert_x.JobStore.Invariant.{IsConsistent}
use auto_cert_x.JobStore.Lookups.{require_job-own_id, require_job-IsStored}
use auto_cert_x.JobStore.Completing.{complete_locked-Finishes}

-- The job under `k` and its attempts are the same in both stores.
abbrev pub Untouched : String → Store → Store → Type 0
Untouched k s t =
    (lookup k t.jobs ≡ lookup k s.jobs) × (lookup_list k t.attempts ≡ lookup_list k s.attempts)

pub Untouched-trans :
    (k : String) (s t u : Store) → Untouched k s t → Untouched k t u → Untouched k s u
Untouched-trans k s t u a b = (b.0 ∙ a.0, b.1 ∙ a.1)

module _ (s : Store) (k i : String) (n : Job) (ne : i ≢ k) where
  pub put_job-Untouched : Untouched k s (put_job s i n)
  put_job-Untouched = (ground (arith, lookup-insert i k n s.jobs, eq_iff i k), refl)

  pub put_attempts-Untouched :
      (history : List Attempt) → Untouched k s (put_attempts (put_job s i n) i history)
  put_attempts-Untouched history =
      (put_job-Untouched.0, ground (arith, lookup_list-insert i k history s.attempts, eq_iff i k))

-- Two stored jobs of different kinds stand under different ids.
pub other_id :
    (s : Store) (f : Job → Bool) (k i : String) (m j : Job)
    → lookup k s.jobs ≡ some m
    → f m ≡ false
    → lookup i s.jobs ≡ some j
    → f j ≡ true
    → i ≢ k
other_id s f k i m j at_k no_m at_i yes_j e = cc

abbrev pub leased : Job → Bool
leased j = is_leased j.status

-- Commands of a lease owner leave the jobs with no lease alone.
module _ (s : Store) (k : String) (m : Job) (c : IsConsistent s) (here : lookup k s.jobs ≡ some m)
    (free : is_leased m.status ≡ false) where
  pub mark_running-Untouched : (p : MarkRunningParams) → Untouched k s (mark_running s p).1
  unfolding mark_running
  mark_running-Untouched p =
      commit-Leaves {P = Untouched k s} s _ (refl, refl)
        (Leaves-bind (require_job s p.job_id) _ λ j ej.
          Leaves-bind (active_attempt s j.id p.worker_id) _ λ found ea.
            Leaves-bind (Lifecycle.mark_running j p.worker_id p.now) _ λ n en. Leaves-ok n _ (
              put_job-Untouched s k j.id n (
                other_id s leased k j.id m j here free (require_job-own_id s p.job_id c ej)
                  (unfold is_leased in rw (Effects.mark_running_effect j p.worker_id p.now en).0))))

  pub heartbeat-Untouched : (p : HeartbeatParams) → Untouched k s (heartbeat s p).1
  unfolding heartbeat
  heartbeat-Untouched p =
      commit-Leaves {P = Untouched k s} s _ (refl, refl)
        (Leaves-bind (require_job s p.job_id) _ λ j ej.
          Leaves-bind (Lifecycle.renew j p.worker_id p.lease_ttl p.now) _ λ n en.
            Leaves-bind (active_attempt s j.id p.worker_id) _ λ found ea.
              Leaves-bind (Attempt.heartbeat found.0 p.now) _ λ b eb. Leaves-ok _ _ (
                put_attempts-Untouched s k j.id n
                  (other_id s leased k j.id m j here free (require_job-own_id s p.job_id c ej)
                    (Effects.renew_effect j p.worker_id p.lease_ttl p.now en).0)
                  _))

  pub complete-Untouched : (p : CompleteParams) → Untouched k s (complete s p).1
  unfolding complete
  complete-Untouched p =
      commit-Leaves {P = Untouched k s} s _ (refl, refl)
        (Leaves-bind (require_job s p.job_id) _ λ j ej.
          Leaves-bind (active_attempt s j.id p.worker_id) _ λ found ea.
            Leaves-bind (complete_locked j found.0 p (failure_of p) p.result_status) _ λ done ed.
              Leaves-ok _ _ (
                put_attempts-Untouched s k j.id (with_retry p done.0).0
                  (other_id s leased k j.id m j here free (require_job-own_id s p.job_id c ej)
                    (complete_locked-Finishes j found.0 p (failure_of p) p.result_status
                      (require_job-IsStored s p.job_id c ej).well_formed ed).0.was_leased)
                  _))
