-- ===== src/JobStore/Reachable.antt =====
-- The repository of internal/application/command/jobs/memory_repository.go as a state machine: one
-- step is one command, by any caller, at any time, in any order. A created record comes from
-- `job.New` under an id that `generateID` draws: not blank, with no space round it, and not drawn
-- before.
use auto_cert_x.Prelude.{
  ℕ, String, ◌≡◌, ◌≢◌, false, Option, none, some, ok, arith, ◌==◌, Option-cases, inl, inr,
  false_of_ne,
}
use auto_cert_x.Text.{trim_space}
use auto_cert_x.Dict.{lookup}
use auto_cert_x.Job.Clock.{Time}
use auto_cert_x.Job.Status.{is_leased}
use auto_cert_x.Job.Record.{Job, CreateParams, new}
use auto_cert_x.Job.Invariant.{new-IsWellFormed}
use auto_cert_x.JobStore.Params.{
  ClaimParams, MarkRunningParams, HeartbeatParams, CompleteParams, CancelParams, ReapParams,
}
use auto_cert_x.JobStore.State.{Store, empty}
use auto_cert_x.JobStore.Commands
use auto_cert_x.JobStore.Commands.{create, ensure_planned}
use auto_cert_x.JobStore.Reaping
use auto_cert_x.JobStore.Invariant.{IsConsistent, empty-IsConsistent}
use auto_cert_x.JobStore.Adding.{added-IsConsistent}
use auto_cert_x.JobStore.Preserving.{
  mark_running-IsConsistent, heartbeat-IsConsistent, complete-IsConsistent,
}
use auto_cert_x.JobStore.Cancelling.{cancel-IsConsistent}
use auto_cert_x.JobStore.Claiming.{claim-IsConsistent}
use auto_cert_x.JobStore.Expiring.{reap_expired-IsConsistent}

-- A record as `job.New` makes it, under an id that the store does not hold.
pub record IsNew (s : Store) (j : Job) : Type 0 where
  pub params : CreateParams
  pub now : Time
  pub made : new params now (some j.id) ≡ ok j
  pub unused : lookup j.id s.jobs ≡ none
  pub trimmed : trim_space j.id ≡ j.id
  pub named : j.id ≢ ""

pub data Step (s t : Store) : Type 0 where
  creating : (j : Job) → IsNew s j → t ≡ (create s j).1 → Step s t
  planning : (j : Job) → IsNew s j → t ≡ (ensure_planned s j).1 → Step s t
  claiming :
      (p : ClaimParams) (fresh : ℕ → Option String) → t ≡ (Commands.claim s p fresh).1 → Step s t
  starting : (p : MarkRunningParams) → t ≡ (Commands.mark_running s p).1 → Step s t
  beating : (p : HeartbeatParams) → t ≡ (Commands.heartbeat s p).1 → Step s t
  completing : (p : CompleteParams) → t ≡ (Commands.complete s p).1 → Step s t
  cancelling : (p : CancelParams) → t ≡ (Commands.cancel s p).1 → Step s t
  reaping : (p : ReapParams) → t ≡ (Reaping.reap_expired s p).1 → Step s t

pub data Reachable : Store → Type 0 where
  start : Reachable empty
  next : {s t : Store} → Reachable s → Step s t → Reachable t

-- what `new` makes has no lease and no attempt
new_fresh :
    (p : CreateParams) (now : Time) (fresh : Option String) {j : Job}
    → new p now fresh ≡ ok j
    → (is_leased j.status ≡ false) × (j.attempt_count ≡ 0)
unfolding new is_leased
new_fresh p now fresh h = ground arith

add_new-IsConsistent :
    (s : Store) (j : Job)
    → IsConsistent s
    → IsNew s j
    → lookup j.idempotency_key s.idempotency ≡ none
    → IsConsistent (Commands.put_new s j)
add_new-IsConsistent s j c fresh free =
    let (unleased, none_yet) = new_fresh fresh.params fresh.now (some j.id) fresh.made in
    added-IsConsistent s j c fresh.unused free fresh.trimmed fresh.named
      (new-IsWellFormed fresh.params fresh.now (some j.id) fresh.made) unleased none_yet

create-IsConsistent :
    (s : Store) (j : Job) → IsConsistent s → IsNew s j → IsConsistent (create s j).1
unfolding create
create-IsConsistent s j c fresh = elim (Option-cases (lookup j.idempotency_key s.idempotency)) [
  | inl free ↦ rw free (add_new-IsConsistent s j c fresh free)
  | inr (id, taken) ↦
      let (m, at, key) = c.pointed j.idempotency_key id taken in
      let named : id ≢ "" = (c.stored id m at).named in
      let test : (id == "") ≡ false = false_of_ne id "" named in rw (taken, test) c
]

ensure_planned-IsConsistent :
    (s : Store) (j : Job) → IsConsistent s → IsNew s j → IsConsistent (ensure_planned s j).1
unfolding ensure_planned
ensure_planned-IsConsistent s j c fresh =
    elim (Option-cases (lookup j.idempotency_key s.idempotency)) [
      | inl free ↦ rw (free, ensure_planned) (add_new-IsConsistent s j c fresh free)
      | inr (id, taken) ↦ rw (taken, ensure_planned) c
    ]

-- Every command, whether it succeeds or fails, takes a consistent repository to a consistent one.
pub Step-IsConsistent : (s t : Store) → IsConsistent s → Step s t → IsConsistent t
Step-IsConsistent s t c (creating j fresh e) = rw e (create-IsConsistent s j c fresh)
Step-IsConsistent s t c (planning j fresh e) = rw e (ensure_planned-IsConsistent s j c fresh)
Step-IsConsistent s t c (claiming p fresh e) = rw e (claim-IsConsistent s p fresh c)
Step-IsConsistent s t c (starting p e) = rw e (mark_running-IsConsistent s p c)
Step-IsConsistent s t c (beating p e) = rw e (heartbeat-IsConsistent s p c)
Step-IsConsistent s t c (completing p e) = rw e (complete-IsConsistent s p c)
Step-IsConsistent s t c (cancelling p e) = rw e (cancel-IsConsistent s p c)
Step-IsConsistent s t c (reaping p e) = rw e (reap_expired-IsConsistent s p c)

-- After any commands, in any order, succeeding or failing, the repository is consistent: each job is
-- well formed and stands under its id, its idempotency key points to it, its attempts are numbered
-- from 1 and as many as its attempt count, the last is active and the lease owner's while the job
-- is leased, and all others are closed; each key points to a job that has it.
pub Reachable-IsConsistent : {s : Store} → Reachable s → IsConsistent s
Reachable-IsConsistent start = empty-IsConsistent
Reachable-IsConsistent (next {s} {t} r st) = Step-IsConsistent s t (Reachable-IsConsistent r) st
