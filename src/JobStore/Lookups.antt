-- ===== src/JobStore/Lookups.antt =====
-- The lookups under the lock of internal/application/command/jobs/memory_repository.go, over a
-- consistent repository.
use auto_cert_x.Prelude.{
  ℕ, String, ◌≡◌, sym, subst, inl, inr, true, false, some, arith, ok, err, eq_iff, Bool-cases,
}
use auto_cert_x.Text.{trim_space}
use auto_cert_x.Dict.{lookup, lookup_list}
use auto_cert_x.Job.Errors.{attempt_not_found}
use auto_cert_x.Job.Status.{is_leased}
use auto_cert_x.Job.Attempt.{Attempt}
use auto_cert_x.Job.Record.{Job}
use auto_cert_x.JobStore.State.{Store, require_job, active_attempt, last_active}
use auto_cert_x.JobStore.History.{
  last_active_of_Closed, FoundAt, FoundAt-of_active, active_of_OpenLast,
}
use auto_cert_x.JobStore.Invariant.{IsStored, IsConsistent}

pub require_job-lookup :
    (s : Store) (id : String) {j : Job}
    → require_job s id ≡ ok j
    → lookup (trim_space id) s.jobs ≡ some j
unfolding require_job
require_job-lookup s id h = ground arith

-- The record that is found stands under its own id.
pub require_job-own_id :
    (s : Store) (id : String) {j : Job}
    → IsConsistent s
    → require_job s id ≡ ok j
    → lookup j.id s.jobs ≡ some j
require_job-own_id s id {j} c h =
    let at = require_job-lookup s id h in
    let own = (c.stored (trim_space id) j at).own_id in
    subst (λ k. lookup k s.jobs ≡ some j) (sym own) at

pub require_job-IsStored :
    (s : Store) (id : String) {j : Job}
    → IsConsistent s
    → require_job s id ≡ ok j
    → IsStored s j.id j
require_job-IsStored s id {j} c h = c.stored j.id j (require_job-own_id s id c h)

active_attempt-last_active :
    (s : Store) (k w : String) {a : Attempt} {i : ℕ}
    → active_attempt s k w ≡ ok (a, i)
    → last_active (lookup_list k s.attempts) ≡ some (a, i)
unfolding active_attempt
active_attempt-last_active s k w h = ground arith

-- An active attempt is found only for a leased job, and is the one that its owner started.
pub active_attempt-FoundAt :
    (s : Store) (k w : String) (j : Job) (a : Attempt) (i : ℕ)
    → IsStored s k j
    → active_attempt s k w ≡ ok (a, i)
    → (is_leased j.status ≡ true) × FoundAt j.lease_owner (lookup_list k s.attempts) a i
active_attempt-FoundAt s k w j a i stored h =
    let at = active_attempt-last_active s k w h in
    elim (Bool-cases (is_leased j.status)) [
      | inl e ↦ (
        e,
        FoundAt-of_active j.lease_owner (lookup_list k s.attempts) a i (stored.history.opened e) at,
      )
      | inr e ↦
          absurd (cc (last_active_of_Closed (lookup_list k s.attempts) (stored.history.closed e)))
    ]

-- The owner of a lease finds its active attempt.
pub active_attempt-owner :
    (s : Store) (k : String) (j : Job)
    → IsStored s k j
    → is_leased j.status ≡ true
    → (a : Attempt) × (i : ℕ) × (active_attempt s k j.lease_owner ≡ ok (a, i))
      × FoundAt j.lease_owner (lookup_list k s.attempts) a i
unfolding active_attempt
active_attempt-owner s k j stored leased =
    let (a, i, at, found) =
      active_of_OpenLast j.lease_owner (lookup_list k s.attempts) (stored.history.opened leased) in
    (
      a,
      i,
      rw (at, active_attempt)
          (ground (
            arith,
            found.owned,
            stored.well_formed.owner_trimmed,
            eq_iff a.worker_id (trim_space j.lease_owner),
          )),
      found,
    )

-- A job with no lease has no active attempt, whoever asks.
pub active_attempt-idle :
    (s : Store) (k w : String) (j : Job)
    → IsStored s k j
    → is_leased j.status ≡ false
    → active_attempt s k w ≡ err attempt_not_found
unfolding active_attempt
active_attempt-idle s k w j stored free =
    rw (
      last_active_of_Closed (lookup_list k s.attempts) (stored.history.closed free),
      active_attempt,
    )
