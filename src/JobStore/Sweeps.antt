-- ===== src/JobStore/Sweeps.antt =====
-- The commands of internal/application/command/jobs/memory_repository.go that go over many jobs,
-- and those jobs that they leave alone.
use auto_cert_x.Prelude.{
  ℕ, ◌+◌, String, ◌≡◌, ◌≢◌, refl, ap, ◌∙◌, Bool, true, false, ◌&&◌, Option, none, some, List, [],
  ◌∷◌, ◌++◌, ok, >>=-eq-ok, ok-injective, arith, length, Bool-cases, Option-cases, Result-cases,
  inl, inr, leb, eq_iff, ◌==◌, subst,
}
use auto_cert_x.Text.{trim_space}
use auto_cert_x.Dict.{lookup, lookup-insert}
use auto_cert_x.Job.Clock.{Time}
use auto_cert_x.Job.Status.{is_leased, can_claim, can_cancel}
use auto_cert_x.Job.Attempt
use auto_cert_x.Job.Attempt.{Attempt}
use auto_cert_x.Job.Record.{Job}
use auto_cert_x.Job.Lifecycle
use auto_cert_x.Job.Effects
use auto_cert_x.JobStore.Params.{ClaimParams, ClaimedJob, CancelParams, ReapParams, ReapedLease}
use auto_cert_x.JobStore.State.{
  Store, require_job, active_attempt, stored_job, claimable_ids, expired_lease_ids,
}
use auto_cert_x.JobStore.Commands.{
  put_job, put_new, claim, claim_record, claim_one, claim_loop, effective_max_jobs, cancel,
  abandon_active, cancelled_failure,
}
use auto_cert_x.JobStore.Reaping.{
  reap_record, reap_one, reap_loop, reap_expired, limited, close_attempt, expired_failure,
  retry_expired,
}
use auto_cert_x.JobStore.Invariant.{IsConsistent}
use auto_cert_x.JobStore.Lookups.{require_job-own_id}
use auto_cert_x.JobStore.Cancelling.{abandon_active-idle, cancel_refused, free_of_final}
use auto_cert_x.JobStore.Claiming.{claim_record-zero_job}
use auto_cert_x.JobStore.Expiring.{reap_record-zero_job}
use auto_cert_x.JobStore.Frames.{
  Untouched, Untouched-trans, put_job-Untouched, put_attempts-Untouched, other_id,
}

abbrev claimable : Job → Bool
claimable j = can_claim j.status

claim_record-Untouched :
    (p : ClaimParams) (fresh : Option String) (k id : String) (m j : Job)
    (results : List ClaimedJob) (s : Store)
    → lookup k s.jobs ≡ some m
    → can_claim m.status ≡ false
    → lookup id s.jobs ≡ some j
    → Untouched k s (claim_record p fresh id j (results, s)).1
unfolding claim_record
claim_record-Untouched p fresh k id m j results s here kept at =
    elim (Result-cases (Lifecycle.claim j p.worker_id p.lease_ttl p.now fresh)) [
      | inl ((n, a), e) ↦
          rw (e, claim_record)
            (put_attempts-Untouched s k id n
              (other_id s claimable k id m j here kept at
                (Effects.claim_effect j p.worker_id p.lease_ttl p.now fresh e).0)
              _)
      | inr (x, e) ↦ rw (e, claim_record) (refl, refl)
    ]

module _ (p : ClaimParams) (k : String) (m : Job) (kept : can_claim m.status ≡ false) where
  claim_one-Untouched :
      (fresh : Option String) (id : String) (results : List ClaimedJob) (s : Store)
      → lookup k s.jobs ≡ some m
      → Untouched k s (claim_one p fresh id (results, s)).1
  unfolding claim_one
  claim_one-Untouched fresh id results s here = elim (Option-cases (lookup id s.jobs)) [
    | inl gone ↦
        rw (gone, stored_job) (rw (claim_record-zero_job p fresh id results s) (refl, refl))
    | inr (j, at) ↦
        rw (at, stored_job) (claim_record-Untouched p fresh k id m j results s here kept at)
  ]

  claim_loop-Untouched :
      (fresh : ℕ → Option String) (n : ℕ) (ids : List String) (results : List ClaimedJob)
      (s : Store)
      → lookup k s.jobs ≡ some m
      → Untouched k s (claim_loop p fresh n ids (results, s)).1
  unfolding claim_loop
  claim_loop-Untouched fresh n [] results s here = (refl, refl)
  claim_loop-Untouched fresh n (id ∷ ids) results s here =
      elim (Bool-cases (leb (effective_max_jobs p.max_jobs) (length results))) [
        | inl full ↦ rw full (refl, refl)
        | inr room ↦
            let (results', s') = claim_one p (fresh n) id (results, s) in
            let one = claim_one-Untouched (fresh n) id results s here in
            rw room (
              Untouched-trans k s s' (claim_loop p fresh (n + 1) ids (results', s')).1 one
                (claim_loop-Untouched fresh (n + 1) ids results' s' (one.0 ∙ here)))
      ]

  -- A claim touches claimable jobs alone.
  pub claim-Untouched :
      (s : Store) (fresh : ℕ → Option String)
      → lookup k s.jobs ≡ some m
      → Untouched k s (claim s p fresh).1
  unfolding claim
  claim-Untouched s fresh here = elim (Bool-cases (trim_space p.worker_id == "")) [
    | inl empty ↦ rw empty (refl, refl)
    | inr named ↦ rw named (claim_loop-Untouched fresh 0 (claimable_ids s p.now) [] s here)
  ]

-- a lease that has run out
abbrev pub runs_out : Time → Job → Bool
runs_out now j = is_leased j.status && leb j.lease_expire_at now

reap_record-Untouched :
    (p : ReapParams) (k id : String) (m j : Job) (s : Store) {r : ReapedLease} {t : Store}
    → lookup k s.jobs ≡ some m
    → runs_out p.now m ≡ false
    → lookup id s.jobs ≡ some j
    → reap_record p s id j ≡ ok (r, t)
    → Untouched k s t
unfolding reap_record
reap_record-Untouched p k id m j s here kept at h =
    let (found, ef, h1) = >>=-eq-ok (active_attempt s j.id j.lease_owner) _ h in
    let ((n, status), ee, h2) =
      >>=-eq-ok
        (Lifecycle.expire_lease j p.now (expired_failure "worker lease expired before completion"))
        _ h1 in
    let (b, eb, h3) = >>=-eq-ok (close_attempt found.0 p.now status) _ h2 in
    let (leased, late, ended, count) = Effects.expire_lease_effect j p.now _ ee in
    let out : runs_out p.now j ≡ true = ground arith in
    subst (Untouched k s) (ap (λ (x : ReapedLease × Store). x.1) (ok-injective h3)) (
      put_attempts-Untouched s k id (retry_expired p n).0
        (other_id s (runs_out p.now) k id m j here kept at out) _)

module _ (p : ReapParams) (k : String) (m : Job) (kept : runs_out p.now m ≡ false) where
  reap_one-Untouched :
      (id : String) (s : Store) {r : ReapedLease} {t : Store}
      → lookup k s.jobs ≡ some m
      → reap_one p s id ≡ ok (r, t)
      → Untouched k s t
  unfolding reap_one
  reap_one-Untouched id s here h = elim (Option-cases (lookup id s.jobs)) [
    | inl gone ↦ absurd (reap_record-zero_job p s id (rw (gone, stored_job) at h))
    | inr (j, at) ↦ reap_record-Untouched p k id m j s here kept at (rw (at, stored_job) at h)
  ]

  reap_loop-Untouched :
      (ids : List String) (results : List ReapedLease) (s : Store)
      → lookup k s.jobs ≡ some m
      → Untouched k s (reap_loop p ids results s).1
  unfolding reap_loop
  reap_loop-Untouched [] results s here = (refl, refl)
  reap_loop-Untouched (id ∷ ids) results s here = elim (Result-cases (reap_one p s id)) [
    | inl ((r, t), e) ↦
        let one = reap_one-Untouched id s here e in
        rw (e, reap_loop)
          (Untouched-trans k s t (reap_loop p ids (results ++ r ∷ []) t).1 one
            (reap_loop-Untouched ids (results ++ r ∷ []) t (one.0 ∙ here)))
    | inr (x, e) ↦ rw (e, reap_loop) (refl, refl)
  ]

  -- The reaper touches those jobs alone whose lease has run out.
  pub reap_expired-Untouched :
      (s : Store) → lookup k s.jobs ≡ some m → Untouched k s (reap_expired s p).1
  unfolding reap_expired
  reap_expired-Untouched s here =
      reap_loop-Untouched (limited p.limit (expired_lease_ids s p.now)) [] s here

-- A new record stands beside those that are stored.
pub put_new-Untouched :
    (s : Store) (j : Job) (k : String) {m : Job}
    → lookup k s.jobs ≡ some m
    → lookup j.id s.jobs ≡ none
    → Untouched k s (put_new s j)
put_new-Untouched s j k here unused =
    (ground (arith, lookup-insert j.id k j s.jobs, eq_iff j.id k), refl)

abbrev cancellable : Job → Bool
cancellable j = can_cancel j.status

cancelled-Untouched :
    (s : Store) (now : Time) (k : String) (j n : Job)
    → j.id ≢ k
    → Untouched k s (put_job (abandon_active s j now) j.id n)
unfolding abandon_active
cancelled-Untouched s now k j n ne = elim (Result-cases (active_attempt s j.id j.lease_owner)) [
  | inr (x, e) ↦ rw (e, abandon_active) (put_job-Untouched s k j.id n ne)
  | inl ((a, i), e) ↦ elim (Result-cases (Attempt.mark_abandoned a now cancelled_failure)) [
    | inr (x, refused) ↦ rw (e, refused, abandon_active) (put_job-Untouched s k j.id n ne)
    | inl (b, closed) ↦ rw (e, closed, abandon_active) (put_attempts-Untouched s k j.id n ne _)
  ]
]

-- Cancelling touches jobs alone that can be cancelled.
pub cancel-Untouched :
    (s : Store) (p : CancelParams) (k : String) (m : Job)
    → IsConsistent s
    → lookup k s.jobs ≡ some m
    → can_cancel m.status ≡ false
    → Untouched k s (cancel s p).1
unfolding cancel
cancel-Untouched s p k m c here kept = elim (Result-cases (require_job s p.job_id)) [
  | inr (x, e) ↦ rw e (refl, refl)
  | inl (j, e) ↦
      let own = require_job-own_id s p.job_id c e in
      let stored = c.stored j.id j own in
      elim (Result-cases (Lifecycle.cancel j p.now)) [
        | inr (x, refused) ↦
            rw
              (
                e,
                refused,
                abandon_active-idle s j p.now stored
                    (free_of_final j.status (cancel_refused j p.now refused)),
              )
              (refl, refl)
        | inl (n, done) ↦
            let ne =
              other_id s cancellable k j.id m j here kept own
                (Effects.cancel_effect j p.now done).0 in
            rw (e, done) (cancelled-Untouched s p.now k j n ne)
      ]
]
