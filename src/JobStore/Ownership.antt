-- ===== src/JobStore/Ownership.antt =====
-- Who may act on a job of internal/application/command/jobs/memory_repository.go: the owner of its
-- lease alone, on its one active attempt.
use auto_cert_x.Prelude.{
  ℕ, suc, ◌≤◌, String, ◌≡◌, refl, sym, ◌∙◌, true, false≢true, some, List, [], ◌∷◌, ok, err,
  >>=-eq-ok, arith, length, All, Bool-cases, inl, inr, if◌then◌else◌,
}
use auto_cert_x.Text.{trim_space}
use auto_cert_x.Dict.{lookup, lookup_list}
use auto_cert_x.Job.Errors.{Outcome}
use auto_cert_x.Job.Status.{is_leased}
use auto_cert_x.Job.Attempt.{Attempt, is_active}
use auto_cert_x.Job.Record.{Job}
use auto_cert_x.Job.Effects.{Holds}
use auto_cert_x.JobStore.Params.{CompleteParams, CompletionResult}
use auto_cert_x.JobStore.State.{Store, require_job, active_attempt}
use auto_cert_x.JobStore.Commands.{commit, complete, complete_locked, failure_of}
use auto_cert_x.JobStore.History.{Closed, OpenLast}
use auto_cert_x.JobStore.Invariant.{IsConsistent}
use auto_cert_x.JobStore.Completing.{complete_locked-Finishes}
use auto_cert_x.JobStore.Lookups.{require_job-lookup, require_job-IsStored}
use auto_cert_x.JobStore.Reachable.{Reachable, Reachable-IsConsistent}

abbrev pub count_active : List Attempt → ℕ
count_active [] = 0
count_active (a ∷ later) = if is_active a then suc (count_active later) else count_active later

-- every active attempt is the owner's
abbrev pub OwnedBy : String → List Attempt → Type 0
OwnedBy owner = All (λ a. is_active a ≡ true → a.worker_id ≡ owner)

Closed-counts :
    (owner : String) (history : List Attempt)
    → Closed history
    → (count_active history ≡ 0) × OwnedBy owner history
Closed-counts owner [] h = (refl, tt)
Closed-counts owner (a ∷ later) h =
    let (nothing, owned) = Closed-counts owner later h.1 in
    (rw h.0 nothing, (λ e. absurd (false≢true (sym h.0 ∙ e)), owned))

OpenLast-counts :
    (owner : String) (history : List Attempt)
    → OpenLast owner history
    → (count_active history ≡ 1) × OwnedBy owner history
OpenLast-counts owner [] h = absurd h
OpenLast-counts owner (a ∷ []) h = (rw h.0, (λ _. h.1, tt))
OpenLast-counts owner (a ∷ b ∷ later) h =
    let (one, owned) = OpenLast-counts owner (b ∷ later) h.1 in
    (rw h.0 one, (λ e. absurd (false≢true (sym h.0 ∙ e)), owned))

-- In every reachable repository a stored job has exactly one active attempt while it is claimed or
-- running, and none otherwise; an active attempt is the lease owner's; and the job was attempted at
-- most as often as its maximum allows.
pub one_active :
    {s : Store}
    → Reachable s
    → (k : String) {j : Job} → lookup k s.jobs ≡ some j
    → (count_active (lookup_list k s.attempts) ≡ (if is_leased j.status then 1 else 0))
      × OwnedBy j.lease_owner (lookup_list k s.attempts)
      × (length (lookup_list k s.attempts) ≤ j.max_attempts)
one_active {s} r k {j} at =
    let stored = (Reachable-IsConsistent r).stored k j at in
    let within : length (lookup_list k s.attempts) ≤ j.max_attempts =
      omega (arith, stored.history.counted, stored.well_formed.budget) in
    elim (Bool-cases (is_leased j.status)) [
      | inl leased ↦
          let (one, owned) =
            OpenLast-counts j.lease_owner (lookup_list k s.attempts)
              (stored.history.opened leased) in
          (rw leased one, owned, within)
      | inr free ↦
          let (idle, owned) =
            Closed-counts j.lease_owner (lookup_list k s.attempts) (stored.history.closed free) in
          (rw free idle, owned, within)
    ]

-- Two jobs of a reachable repository with one idempotency key are one job.
pub idempotency_unique :
    {s : Store}
    → Reachable s
    → (k l : String) {j m : Job} → lookup k s.jobs ≡ some j
    → lookup l s.jobs ≡ some m
    → j.idempotency_key ≡ m.idempotency_key
    → k ≡ l
idempotency_unique r k l {j} {m} at_k at_l same =
    let c = Reachable-IsConsistent r in
    cc ((c.stored k j at_k).indexed, (c.stored l m at_l).indexed)

commit-eq-ok :
    {A : Type 0} (s : Store) (m : Outcome (A × Store)) {a : A} {t : Store}
    → commit s m ≡ (ok a, t)
    → m ≡ ok (a, t)
commit-eq-ok s (ok (b, u)) h = cc
commit-eq-ok s (err e) h = cc

-- In a consistent repository, where `complete` succeeds the job was leased, the caller named a worker
-- that holds its lease, and the lease had not run out.
pub complete-Holds :
    (s : Store) (p : CompleteParams) {r : CompletionResult} {t : Store}
    → IsConsistent s
    → complete s p ≡ (ok r, t)
    → (j : Job) × (lookup (trim_space p.job_id) s.jobs ≡ some j)
      × (is_leased j.status ≡ true)
      × Holds j p.worker_id p.now
unfolding complete
complete-Holds s p c h =
    let (j, ej, h1) = >>=-eq-ok (require_job s p.job_id) _ (commit-eq-ok s _ h) in
    let (found, ea, h2) = >>=-eq-ok (active_attempt s j.id p.worker_id) _ h1 in
    let (done, ed, h3) =
      >>=-eq-ok (complete_locked j found.0 p (failure_of p) p.result_status) _ h2 in
    let (fin, holds) =
      complete_locked-Finishes j found.0 p (failure_of p) p.result_status
        (require_job-IsStored s p.job_id c ej).well_formed ed in
    (j, require_job-lookup s p.job_id ej, fin.was_leased, holds)
