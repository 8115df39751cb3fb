-- ===== src/JobStore/Completing.antt =====
-- `completeLocked` and the retry decision of
-- internal/application/command/jobs/memory_repository.go.
use auto_cert_x.Prelude.{
  String, ◌≡◌, refl, Bool, true, false, ok, joined, if◌then◌else◌, joined-eq-ok, Result-cases, inl,
  inr,
}
use auto_cert_x.Job.Errors.{Outcome}
use auto_cert_x.Job.Clock.{Time, Duration}
use auto_cert_x.Job.Status.{is_leased}
use auto_cert_x.Job.AttemptStatus.{AttemptStatus}
use auto_cert_x.Job.Attempt
use auto_cert_x.Job.Attempt.{Attempt, Failure, is_active}
use auto_cert_x.Job.AttemptEffects
use auto_cert_x.Job.AttemptEffects.{SameAttempt, Closes}
use auto_cert_x.Job.Record.{Job}
use auto_cert_x.Job.Lifecycle
use auto_cert_x.Job.Effects
use auto_cert_x.Job.Effects.{SameJob, SameJob-refl, Continues, Holds}
use auto_cert_x.Job.Invariant
use auto_cert_x.Job.Invariant.{IsWellFormed}
use auto_cert_x.JobStore.Params.{CompleteParams}
use auto_cert_x.JobStore.Commands.{complete_locked, with_retry, retried_or}

-- A job that gave up its lease, and its attempt that was closed with it.
pub record Finishes (j n : Job) (a b : Attempt) : Type 0 where
  pub same : SameJob j n
  pub was_leased : is_leased j.status ≡ true
  pub free : is_leased n.status ≡ false
  pub same_count : n.attempt_count ≡ j.attempt_count
  pub well_formed : IsWellFormed n
  pub closes : Closes a b

module _ (j n : Job) (w : String) (a b : Attempt) (now : Time) (v : IsWellFormed j) where
  succeeded-Finishes :
      (ref : String)
      → joined (Lifecycle.mark_succeeded j w now) (Attempt.mark_succeeded a now ref) ≡ ok (n, b)
      → Finishes j n a b × Holds j w now
  unfolding is_leased
  succeeded-Finishes ref h =
      let (hj, ha) =
        joined-eq-ok (Lifecycle.mark_succeeded j w now) (Attempt.mark_succeeded a now ref) h in
      let (leased, status, count) = Effects.mark_succeeded_effect j w now hj in
      (
        record {
          same = (Effects.mark_succeeded-Continues j w now hj).same;
          was_leased = leased;
          free = rw status;
          same_count = count;
          well_formed = Invariant.mark_succeeded-IsWellFormed j w now v hj;
          closes = AttemptEffects.mark_succeeded-Closes a now ref ha;
        },
        Effects.mark_succeeded-Holds j w now hj,
      )

  module _ (f : Failure) where
    failed-Finishes :
        joined (Lifecycle.mark_failed j w f now) (Attempt.mark_failed a now f) ≡ ok (n, b)
        → Finishes j n a b × Holds j w now
    unfolding is_leased
    failed-Finishes h =
        let (hj, ha) =
          joined-eq-ok (Lifecycle.mark_failed j w f now) (Attempt.mark_failed a now f) h in
        let (leased, status, count) = Effects.mark_failed_effect j w f now hj in
        (
          record {
            same = (Effects.mark_failed-Continues j w f now hj).same;
            was_leased = leased;
            free = rw status;
            same_count = count;
            well_formed = Invariant.mark_failed-IsWellFormed j w f now v hj;
            closes = AttemptEffects.mark_failed-Closes a now f ha;
          },
          Effects.mark_failed-Holds j w f now hj,
        )

    -- a timeout and an abandoned attempt end the job alike
    timed_out-Finishes :
        (closing : Outcome Attempt)
        → ((c : Attempt) → closing ≡ ok c → Closes a c)
        → joined (Lifecycle.mark_timed_out j w f now) closing ≡ ok (n, b)
        → Finishes j n a b × Holds j w now
    unfolding is_leased
    timed_out-Finishes closing closes h =
        let (hj, ha) = joined-eq-ok (Lifecycle.mark_timed_out j w f now) closing h in
        let (leased, status, count) = Effects.mark_timed_out_effect j w f now hj in
        (
          record {
            same = (Effects.mark_timed_out-Continues j w f now hj).same;
            was_leased = leased;
            free = rw status;
            same_count = count;
            well_formed = Invariant.mark_timed_out-IsWellFormed j w f now v hj;
            closes = closes b ha;
          },
          Effects.mark_timed_out-Holds j w f now hj,
        )

-- Whatever status the worker reports, the owner gives up its lease and closes its attempt.
pub complete_locked-Finishes :
    (j : Job) (a : Attempt) (p : CompleteParams) (f : Failure) (status : AttemptStatus) {n : Job}
    {b : Attempt}
    → IsWellFormed j
    → complete_locked j a p f status ≡ ok (n, b)
    → Finishes j n a b × Holds j p.worker_id p.now
unfolding complete_locked
complete_locked-Finishes j a p f AttemptStatus.succeeded {n} {b} v h =
    succeeded-Finishes j n p.worker_id a b p.now v p.evidence_ref h
complete_locked-Finishes j a p f AttemptStatus.timed_out {n} {b} v h =
    timed_out-Finishes j n p.worker_id a b p.now v f (Attempt.mark_timed_out a p.now f)
      (λ c e. AttemptEffects.mark_timed_out-Closes a p.now f e) h
complete_locked-Finishes j a p f AttemptStatus.abandoned {n} {b} v h =
    timed_out-Finishes j n p.worker_id a b p.now v f (Attempt.mark_abandoned a p.now f)
      (λ c e. AttemptEffects.mark_abandoned-Closes a p.now f e) h
complete_locked-Finishes j a p f _ {n} {b} v h = failed-Finishes j n p.worker_id a b p.now v f h

-- A retry keeps the job free of a lease, and within its budget.
pub record Settles (j n : Job) : Type 0 where
  pub same : SameJob j n
  pub free : is_leased n.status ≡ false
  pub same_count : n.attempt_count ≡ j.attempt_count
  pub well_formed : IsWellFormed n

pub retried_or-Settles :
    (j : Job) (delay : Duration) (now : Time)
    → IsWellFormed j
    → is_leased j.status ≡ false
    → Settles j (retried_or j (Lifecycle.schedule_retry j delay now)).0
unfolding is_leased
retried_or-Settles j delay now v free = elim (Result-cases (Lifecycle.schedule_retry j delay now)) [
  | inl (n, e) ↦ rw e (record {
    same = (Effects.schedule_retry-Continues j delay now e).same;
    free = rw (Effects.schedule_retry_effect j delay now e).2;
    same_count = (Effects.schedule_retry_effect j delay now e).4;
    well_formed = Invariant.schedule_retry-IsWellFormed j delay now v e;
  })
  | inr (x, e) ↦
      rw e (record { same = SameJob-refl j; free = free; same_count = refl; well_formed = v })
]

-- retried or left as it is
pub Settles-if :
    (b : Bool) (j : Job) (r : Job × Bool)
    → IsWellFormed j
    → is_leased j.status ≡ false
    → Settles j r.0
    → Settles j (if b then r else (j, false)).0
Settles-if true j r v free s = s
Settles-if false j r v free s = record {
  same = SameJob-refl j;
  free = free;
  same_count = refl;
  well_formed = v;
}

pub with_retry-Settles :
    (p : CompleteParams) (j : Job)
    → IsWellFormed j
    → is_leased j.status ≡ false
    → Settles j (with_retry p j).0
unfolding with_retry
with_retry-Settles p j v free =
    Settles-if _ j (retried_or j (Lifecycle.schedule_retry j p.retry_delay p.now)) v free
      (retried_or-Settles j p.retry_delay p.now v free)
