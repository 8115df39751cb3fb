-- ===== src/JobService/Planning.antt =====
-- A plan has one job for each slot (`EnsurePlanned` of
-- internal/application/command/jobs/service.go).
use auto_cert_x.Prelude.{
  String, ◌≡◌, true, false, Option, none, some, ok, arith, Option-cases, Result-cases, inl, inr,
}
use auto_cert_x.Dict.{lookup, lookup-insert_self}
use auto_cert_x.Job.Clock.{Time}
use auto_cert_x.Job.Record.{Job, CreateParams, new}
use auto_cert_x.JobStore.Params.{PlannedJob}
use auto_cert_x.JobStore.State.{Store, stored_job}
use auto_cert_x.JobStore.Commands
use auto_cert_x.JobStore.Commands.{put_new}
use auto_cert_x.JobService.Plans.{PlanDefinition, slot, coalesce_time, truncate, plan_params}
use auto_cert_x.JobService.Service.{ensure_planned}

abbrev found_again : Job → PlannedJob
found_again j = record { job = j; created = false }

-- The record that was stored under a key is found under it.
ensure_planned-put_new :
    (s : Store) (n m : Job)
    → m.idempotency_key ≡ n.idempotency_key
    → Commands.ensure_planned (put_new s n) m ≡ (ok (found_again n), put_new s n)
unfolding Commands.ensure_planned
ensure_planned-put_new s n m same =
    rw (same, lookup-insert_self n.idempotency_key n.id s.idempotency, Commands.ensure_planned)
      (rw (lookup-insert_self n.id n s.jobs, stored_job))

ensure_planned-taken :
    (s : Store) (m : Job) (id : String)
    → lookup m.idempotency_key s.idempotency ≡ some id
    → Commands.ensure_planned s m ≡ (ok (found_again (stored_job s id)), s)
unfolding Commands.ensure_planned
ensure_planned-taken s m id taken = rw (taken, Commands.ensure_planned)

ensure_planned-free :
    (s : Store) (n : Job)
    → lookup n.idempotency_key s.idempotency ≡ none
    → Commands.ensure_planned s n ≡ (ok (record { job = n; created = true }), put_new s n)
unfolding Commands.ensure_planned
ensure_planned-free s n free = rw (free, Commands.ensure_planned)

-- Ensuring a second record with the key of the first finds what the first left.
pub ensure_planned_twice :
    (s t : Store) (n m : Job) (r : PlannedJob)
    → Commands.ensure_planned s n ≡ (ok r, t)
    → m.idempotency_key ≡ n.idempotency_key
    → Commands.ensure_planned t m ≡ (ok (found_again r.job), t)
ensure_planned_twice s t n m r h same =
    elim (Option-cases (lookup n.idempotency_key s.idempotency)) [
      | inl free ↦ cc (ensure_planned-free s n free, ensure_planned-put_new s n m same)
      | inr (id, taken) ↦
          cc (ensure_planned-taken s n id taken, ensure_planned-taken s m id (rw same taken))
    ]

slot_of_truncate :
    (format : Time → String) (plan : PlanDefinition) (at wall at' wall' : Time)
    → truncate (coalesce_time at' wall') plan.interval
      ≡ truncate (coalesce_time at wall) plan.interval
    → slot format plan at' wall' ≡ slot format plan at wall
unfolding slot
slot_of_truncate format plan at wall at' wall' e = rw e

-- `job.New` accepts the same parameters at any time, while the random source works.
new_again :
    (p : CreateParams) (now later : Time) (fresh : Option String) (id : String) (n : Job)
    → new p now fresh ≡ ok n
    → (m : Job) × (new p later (some id) ≡ ok m) × (m.idempotency_key ≡ n.idempotency_key)
unfolding new
new_again p now later fresh id n h = elim (Result-cases (new p later (some id))) [
  | inl (m, e) ↦ (m, e, ground arith)
  | inr (x, e) ↦ absurd (ground arith)
]

-- Once a plan has its job in a slot, ensuring the plan again at any instant of the slot returns
-- that job, marked as not created, and leaves the repository as it is.
pub replan_idempotent :
    (format : Time → String) (s t : Store) (plan : PlanDefinition) (r : PlannedJob)
    (at clock clock' at₂ clock₂ clock₂' : Time) (fresh : Option String) (id : String)
    → ensure_planned format s plan at clock clock' fresh ≡ (ok r, t)
    → truncate (coalesce_time (coalesce_time at₂ clock₂) clock₂) plan.interval
      ≡ truncate (coalesce_time (coalesce_time at clock) clock) plan.interval
    → ensure_planned format t plan at₂ clock₂ clock₂' (some id)
      ≡ (ok (record { job = r.job; created = false }), t)
unfolding ensure_planned
replan_idempotent format s t plan r at clock clock' at₂ clock₂ clock₂' fresh id h same =
    elim (Result-cases (slot format plan (coalesce_time at clock) clock)) [
      | inr (x, e) ↦ absurd (cc (rw (e, ensure_planned) at h))
      | inl ((start, key), e) ↦
          elim (Result-cases (new (plan_params plan start key) (coalesce_time at clock') fresh)) [
            | inr (x, refused) ↦ absurd (cc (rw (e, refused, ensure_planned) at h))
            | inl (n, made) ↦
                let (m, again, key_of) =
                  new_again (plan_params plan start key) (coalesce_time at clock')
                    (coalesce_time at₂ clock₂') fresh id n made in
                let first : Commands.ensure_planned s n ≡ (ok r, t) =
                  rw (e, made, ensure_planned) at h in
                rw
                  (
                    slot_of_truncate format plan (coalesce_time at clock) clock
                        (coalesce_time at₂ clock₂) clock₂ same,
                    e,
                    again,
                  )
                  (ensure_planned_twice s t n m r first key_of)
          ]
    ]
