-- ===== src/JobStore/Finality.antt =====
-- What no command of internal/application/command/jobs/memory_repository.go undoes: the end of a
-- job, and a lease that has not run out.
use auto_cert_x.Prelude.{
  ℕ, ◌<◌, String, ◌≡◌, refl, true, false, Option, some, arith, Option-cases, inl, inr,
}
use auto_cert_x.Dict.{lookup}
use auto_cert_x.Job.Status.{Status, is_terminal, is_leased, can_claim, can_cancel}
use auto_cert_x.Job.Record.{Job}
use auto_cert_x.JobStore.Params.{ClaimParams, ReapParams}
use auto_cert_x.JobStore.State.{Store}
use auto_cert_x.JobStore.Commands.{create, ensure_planned, claim}
use auto_cert_x.JobStore.Reaping.{reap_expired}
use auto_cert_x.JobStore.Frames.{
  Untouched, mark_running-Untouched, heartbeat-Untouched, complete-Untouched,
}
use auto_cert_x.JobStore.Sweeps.{
  runs_out, claim-Untouched, reap_expired-Untouched, put_new-Untouched, cancel-Untouched,
}
use auto_cert_x.JobStore.Reachable.{
  IsNew, Step, creating, planning, claiming, starting, beating, completing, cancelling, reaping,
  Reachable, Reachable-IsConsistent,
}

-- a terminal status is neither leased, nor to be claimed, nor to be cancelled
terminal_closed :
    (s : Status)
    → is_terminal s ≡ true
    → (is_leased s ≡ false) × (can_claim s ≡ false) × (can_cancel s ≡ false)
unfolding is_terminal is_leased can_claim can_cancel
terminal_closed s h = ground arith

create-Untouched :
    (s : Store) (j : Job) (k : String) {m : Job}
    → IsNew s j
    → lookup k s.jobs ≡ some m
    → Untouched k s (create s j).1
unfolding create
create-Untouched s j k fresh here = ground (arith, put_new-Untouched s j k here fresh.unused)

ensure_planned-Untouched :
    (s : Store) (j : Job) (k : String) {m : Job}
    → IsNew s j
    → lookup k s.jobs ≡ some m
    → Untouched k s (ensure_planned s j).1
unfolding ensure_planned
ensure_planned-Untouched s j k fresh here =
    elim (Option-cases (lookup j.idempotency_key s.idempotency)) [
      | inl free ↦ rw (free, ensure_planned) (put_new-Untouched s j k here fresh.unused)
      | inr (id, taken) ↦ rw (taken, ensure_planned) (refl, refl)
    ]

-- In a reachable repository no command, by whomever and whenever it is given, changes a job in a
-- terminal status (succeeded, failed, cancelled, timed out) or its attempts.
pub terminal_forever :
    {s t : Store}
    → Reachable s
    → Step s t
    → (k : String) {m : Job} → lookup k s.jobs ≡ some m
    → is_terminal m.status ≡ true
    → Untouched k s t
terminal_forever {s} {t} r step k {m} here ended = stays step
  where
    stays : Step s t → Untouched k s t
    stays (creating j fresh e) = rw e (create-Untouched s j k fresh here)
    stays (planning j fresh e) = rw e (ensure_planned-Untouched s j k fresh here)
    stays (claiming p fresh e) =
        rw e (claim-Untouched p k m (terminal_closed m.status ended).1 s fresh here)
    stays (starting p e) = rw e (
        mark_running-Untouched s k m (Reachable-IsConsistent r) here
          (terminal_closed m.status ended).0 p)
    stays (beating p e) = rw e (
        heartbeat-Untouched s k m (Reachable-IsConsistent r) here (terminal_closed m.status ended).0
          p)
    stays (completing p e) = rw e (
        complete-Untouched s k m (Reachable-IsConsistent r) here (terminal_closed m.status ended).0
          p)
    stays (cancelling p e) = rw e (
        cancel-Untouched s p k m (Reachable-IsConsistent r) here (terminal_closed m.status ended).2)
    stays (reaping p e) = rw e (reap_expired-Untouched p k m (ended_kept p.now) s here)
      where
        ended_kept : (now : ℕ) → runs_out now m ≡ false
        ended_kept now = ground (arith, terminal_closed m.status ended)

leased_unclaimable : (s : Status) → is_leased s ≡ true → can_claim s ≡ false
unfolding is_leased can_claim
leased_unclaimable s h = ground arith

-- A leased job and its attempts are left alone by every claim, also by one after the lease has run
-- out, and by a reaper that comes before it runs out.
pub lease_respected :
    (s : Store) (k : String) {m : Job} (p : ClaimParams) (fresh : ℕ → Option String)
    (q : ReapParams)
    → lookup k s.jobs ≡ some m
    → is_leased m.status ≡ true
    → q.now < m.lease_expire_at
    → Untouched k s (claim s p fresh).1 × Untouched k s (reap_expired s q).1
lease_respected s k {m} p fresh q here leased early = (
  claim-Untouched p k m (leased_unclaimable m.status leased) s fresh here,
  reap_expired-Untouched q k m (ground arith) s here,
)
