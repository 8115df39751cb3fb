-- ===== src/JobStore/Cancelling.antt =====
-- `Cancel` of internal/application/command/jobs/memory_repository.go over a consistent repository.
use auto_cert_x.Prelude.{◌≡◌, some, false, ok, err, arith, Bool-cases, Result-cases, inl, inr}
use auto_cert_x.Dict.{lookup, lookup_list}
use auto_cert_x.Job.Errors.{Error}
use auto_cert_x.Job.Clock.{Time}
use auto_cert_x.Job.Status.{Status, is_leased, can_cancel}
use auto_cert_x.Job.AttemptEffects
use auto_cert_x.Job.Record.{Job}
use auto_cert_x.Job.Lifecycle
use auto_cert_x.Job.Effects
use auto_cert_x.Job.Invariant
use auto_cert_x.JobStore.Params.{CancelParams}
use auto_cert_x.JobStore.State.{Store, require_job}
use auto_cert_x.JobStore.Commands.{cancel, cancel_found, abandon_active, cancelled_failure, put_job}
use auto_cert_x.JobStore.Invariant.{IsStored, IsConsistent}
use auto_cert_x.JobStore.Lookups.{require_job-own_id, active_attempt-owner, active_attempt-idle}
use auto_cert_x.JobStore.Rewrites.{
  put_job-IsConsistent, put_attempts-IsConsistent, HasHistory-idle, HasHistory-closed,
}

-- a status that cannot be cancelled holds no lease
pub free_of_final : (s : Status) → can_cancel s ≡ false → is_leased s ≡ false
unfolding can_cancel is_leased
free_of_final s h = ground arith

-- Without a lease there is nothing to abandon.
pub abandon_active-idle :
    (s : Store) (j : Job) (now : Time)
    → IsStored s j.id j
    → is_leased j.status ≡ false
    → abandon_active s j now ≡ s
unfolding abandon_active
abandon_active-idle s j now stored free =
    rw (active_attempt-idle s j.id j.lease_owner j stored free, abandon_active)

pub cancel_refused :
    (j : Job) (now : Time) {e : Error}
    → Lifecycle.cancel j now ≡ err e
    → can_cancel j.status ≡ false
unfolding Lifecycle.cancel
cancel_refused j now h = ground arith

module _ (s : Store) (j n : Job) (now : Time) (c : IsConsistent s)
    (here : lookup j.id s.jobs ≡ some j) (h : Lifecycle.cancel j now ≡ ok n) where
  cancelled_free : is_leased n.status ≡ false
  unfolding is_leased
  cancelled_free = rw (Effects.cancel_effect j now h).1

  abandoned-IsConsistent : IsConsistent (put_job (abandon_active s j now) j.id n)
  unfolding abandon_active
  abandoned-IsConsistent =
      let stored = c.stored j.id j here in
      let same = (Effects.cancel-Continues j now h).same in
      let valid = Invariant.cancel-IsWellFormed j now stored.well_formed h in
      let count = (Effects.cancel_effect j now h).2 in
      elim (Bool-cases (is_leased j.status)) [
        | inr free ↦ rw (abandon_active-idle s j now stored free) (
            put_job-IsConsistent s j.id j n c here same valid (
              HasHistory-idle j n (lookup_list j.id s.attempts) stored.history count free
                cancelled_free))
        | inl leased ↦
            let (a, i, found, at) = active_attempt-owner s j.id j stored leased in
            let (b, closed) =
              AttemptEffects.mark_abandoned_total a now cancelled_failure at.active in
            rw (found, closed, abandon_active)
              (put_attempts-IsConsistent s j.id j n c here same valid _ (
                HasHistory-closed j n (lookup_list j.id s.attempts) stored.history count a b i at
                  (AttemptEffects.mark_abandoned-Closes a now cancelled_failure closed)
                  cancelled_free))
      ]

cancel_found-IsConsistent :
    (s : Store) (p : CancelParams) (j : Job)
    → IsConsistent s
    → lookup j.id s.jobs ≡ some j
    → IsConsistent (cancel_found s p (ok j)).1
cancel_found-IsConsistent s p j c here = elim (Result-cases (Lifecycle.cancel j p.now)) [
  | inl (n, e) ↦ rw e (abandoned-IsConsistent s j n p.now c here e)
  | inr (x, e) ↦
      rw
        (
          e,
          abandon_active-idle s j p.now (c.stored j.id j here)
              (free_of_final j.status (cancel_refused j p.now e)),
        )
        c
]

-- `Cancel` keeps the repository consistent.
pub cancel-IsConsistent :
    (s : Store) (p : CancelParams) → IsConsistent s → IsConsistent (cancel s p).1
unfolding cancel
cancel-IsConsistent s p c = elim (Result-cases (require_job s p.job_id)) [
  | inl (j, e) ↦ rw e (cancel_found-IsConsistent s p j c (require_job-own_id s p.job_id c e))
  | inr (x, e) ↦ rw e c
]
