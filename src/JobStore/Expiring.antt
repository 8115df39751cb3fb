-- ===== src/JobStore/Expiring.antt =====
-- `ReapExpired` of internal/application/command/jobs/memory_repository.go over a consistent
-- repository.
use auto_cert_x.Prelude.{
  ℕ, String, ◌≡◌, sym, ◌∙◌, subst, false, false≢true, some, List, [], ◌∷◌, ◌++◌, ok, >>=-eq-ok,
  Option-cases, Result-cases, inl, inr,
}
use auto_cert_x.Dict.{lookup, lookup_list}
use auto_cert_x.Job.Clock.{Time}
use auto_cert_x.Job.Status.{is_leased}
use auto_cert_x.Job.AttemptStatus.{AttemptStatus}
use auto_cert_x.Job.Attempt.{Attempt}
use auto_cert_x.Job.AttemptEffects
use auto_cert_x.Job.AttemptEffects.{Closes}
use auto_cert_x.Job.Record.{Job, zero_job}
use auto_cert_x.Job.Lifecycle
use auto_cert_x.Job.Effects
use auto_cert_x.Job.Effects.{SameJob-trans}
use auto_cert_x.Job.Invariant
use auto_cert_x.Job.Invariant.{IsWellFormed}
use auto_cert_x.JobStore.Params.{ReapParams, ReapedLease}
use auto_cert_x.JobStore.State.{Store, stored_job, active_attempt, expired_lease_ids}
use auto_cert_x.JobStore.Commands.{put_job, put_attempt, retried_or}
use auto_cert_x.JobStore.Reaping.{
  close_attempt, retry_expired, reap_record, reap_one, reap_loop, reap_expired, limited,
  expired_failure,
}
use auto_cert_x.JobStore.Invariant.{IsConsistent}
use auto_cert_x.JobStore.Lookups.{active_attempt-FoundAt}
use auto_cert_x.JobStore.Rewrites.{put_attempts-IsConsistent, HasHistory-closed}
use auto_cert_x.JobStore.Completing.{Settles, Settles-if, retried_or-Settles}

close_attempt-Closes :
    (a : Attempt) (now : Time) (status : AttemptStatus) {b : Attempt}
    → close_attempt a now status ≡ ok b
    → Closes a b
unfolding close_attempt
close_attempt-Closes a now AttemptStatus.abandoned h =
    AttemptEffects.mark_abandoned-Closes a now _ h
close_attempt-Closes a now _ h = AttemptEffects.mark_timed_out-Closes a now _ h

retry_expired-Settles :
    (p : ReapParams) (j : Job)
    → IsWellFormed j
    → is_leased j.status ≡ false
    → Settles j (retry_expired p j).0
unfolding retry_expired
retry_expired-Settles p j v free =
    Settles-if _ j (retried_or j (Lifecycle.schedule_retry j (p.delay j.attempt_count) p.now)) v
      free (retried_or-Settles j (p.delay j.attempt_count) p.now v free)

-- What one round of the loop writes.
module _ (p : ReapParams) (s : Store) (j n : Job) (found : Attempt × ℕ) (status : AttemptStatus)
    (b : Attempt) (c : IsConsistent s) (here : lookup j.id s.jobs ≡ some j)
    (is_found : active_attempt s j.id j.lease_owner ≡ ok found)
    (expired : Lifecycle.expire_lease j p.now
        (expired_failure "worker lease expired before completion")
      ≡ ok (n, status))
    (is_closed : close_attempt found.0 p.now status ≡ ok b) where
  reaped-IsConsistent :
      IsConsistent (put_attempt (put_job s j.id (retry_expired p n).0) j.id found.1 b)
  reaped-IsConsistent =
      let stored = c.stored j.id j here in
      let (leased, at) =
        active_attempt-FoundAt s j.id j.lease_owner j found.0 found.1 stored is_found in
      let (was, late, ended, count) = Effects.expire_lease_effect j p.now _ expired in
      let free : is_leased n.status ≡ false = unfold is_leased in rw ended in
      let settled =
        retry_expired-Settles p n
          (Invariant.expire_lease-IsWellFormed j p.now _ stored.well_formed expired) free in
      put_attempts-IsConsistent s j.id j (retry_expired p n).0 c here
        (SameJob-trans (Effects.expire_lease-Continues j p.now _ expired).same settled.same)
        settled.well_formed _
        (HasHistory-closed j (retry_expired p n).0 (lookup_list j.id s.attempts) stored.history
          (settled.same_count ∙ count) found.0 b found.1 at
          (close_attempt-Closes found.0 p.now status is_closed) settled.free)

reap_record-IsConsistent :
    (p : ReapParams) (s : Store) (j : Job) {r : ReapedLease} {t : Store}
    → IsConsistent s
    → lookup j.id s.jobs ≡ some j
    → reap_record p s j.id j ≡ ok (r, t)
    → IsConsistent t
unfolding reap_record
reap_record-IsConsistent p s j c here h =
    let (found, ef, h1) = >>=-eq-ok (active_attempt s j.id j.lease_owner) _ h in
    let ((n, status), ee, h2) =
      >>=-eq-ok
        (Lifecycle.expire_lease j p.now (expired_failure "worker lease expired before completion"))
        _ h1 in
    let (b, eb, h3) = >>=-eq-ok (close_attempt found.0 p.now status) _ h2 in
    subst IsConsistent (cc) (reaped-IsConsistent p s j n found status b c here ef ee eb)

-- The zero job holds no lease that could run out.
pub reap_record-zero_job :
    (p : ReapParams) (s : Store) (id : String) {r : ReapedLease} {t : Store}
    → reap_record p s id zero_job ≡ ok (r, t)
    → ⊥
unfolding reap_record is_leased
reap_record-zero_job p s id h =
    let (found, ef, h1) = >>=-eq-ok (active_attempt s "" "") _ h in
    let ((n, status), ee, h2) =
      >>=-eq-ok
        (Lifecycle.expire_lease zero_job p.now
          (expired_failure "worker lease expired before completion"))
        _ h1 in
    false≢true (Effects.expire_lease_effect zero_job p.now _ ee).0

pub reap_one-IsConsistent :
    (p : ReapParams) (s : Store) (id : String) {r : ReapedLease} {t : Store}
    → IsConsistent s
    → reap_one p s id ≡ ok (r, t)
    → IsConsistent t
unfolding reap_one
reap_one-IsConsistent p s id {r} {t} c h = elim (Option-cases (lookup id s.jobs)) [
  | inl gone ↦ absurd (reap_record-zero_job p s id (rw (gone, stored_job) at h))
  | inr (j, here) ↦
      let own : id ≡ j.id = sym (c.stored id j here).own_id in
      let found : reap_record p s id j ≡ ok (r, t) = rw (here, stored_job) at h in
      reap_record-IsConsistent p s j c (subst (λ k. lookup k s.jobs ≡ some j) own here)
        (subst (λ k. reap_record p s k j ≡ ok (r, t)) own found)
]

reap_loop-IsConsistent :
    (p : ReapParams) (ids : List String) (results : List ReapedLease) (s : Store)
    → IsConsistent s
    → IsConsistent (reap_loop p ids results s).1
unfolding reap_loop
reap_loop-IsConsistent p [] results s c = c
reap_loop-IsConsistent p (id ∷ ids) results s c = elim (Result-cases (reap_one p s id)) [
  | inl ((r, t), e) ↦
      rw (e, reap_loop)
        (reap_loop-IsConsistent p ids (results ++ r ∷ []) t (reap_one-IsConsistent p s id c e))
  | inr (x, e) ↦ rw (e, reap_loop) c
]

-- `ReapExpired` keeps the repository consistent, where a round fails too.
pub reap_expired-IsConsistent :
    (s : Store) (p : ReapParams) → IsConsistent s → IsConsistent (reap_expired s p).1
unfolding reap_expired
reap_expired-IsConsistent s p c =
    reap_loop-IsConsistent p (limited p.limit (expired_lease_ids s p.now)) [] s c
