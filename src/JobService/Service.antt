-- ===== src/JobService/Service.antt =====
-- internal/application/command/jobs/service.go: the use cases. A service is its repository, a
-- retry policy and a clock; every reading of the clock is an argument, and so is the id that
-- `generateID` draws.
use auto_cert_x.Prelude.{ℕ, ◌+◌, String, ◌&&◌, Option, List, [], ◌∷◌, ◌++◌, ok, err, if◌then◌else◌}
use auto_cert_x.Prelude.Int.{ℤ, pos, eqb_ℤ}
use auto_cert_x.Job.Errors.{Outcome}
use auto_cert_x.Job.Clock.{Time}
use auto_cert_x.Job.Record.{Job, CreateParams, new}
use auto_cert_x.JobStore.Params.{
  PlannedJob, ClaimParams, ClaimedJob, MarkRunningParams, HeartbeatParams, HeartbeatResult,
  CompleteParams, CompletionResult, ReapedLease,
}
use auto_cert_x.JobStore.State.{Store}
use auto_cert_x.JobStore.Commands
use auto_cert_x.JobStore.Reaping
use auto_cert_x.JobService.Backoff.{Floats, BackoffPolicy, delay}
use auto_cert_x.JobService.Plans.{PlanDefinition, coalesce_time, slot, plan_params}

pub record ScheduleInput : Type 0 where
  pub create : CreateParams
  pub now : Time

-- the record beside the outcome of storing it
abbrev returning : {A : Type 0} → A → Outcome Unit × Store → Outcome A × Store
returning a (ok done, s) = (ok a, s)
returning a (err e, s) = (err e, s)

abbrev store_new : Store → Outcome Job → Outcome Job × Store
store_new s (ok j) = returning j (Commands.create s j)
store_new s (err e) = (err e, s)

-- `Schedule` reads the clock for the time of the first run, and then for the creation time.
unfoldable pub schedule : Store → ScheduleInput → Time → Time → Option String → Outcome Job × Store
schedule s input clock clock' fresh =
    let run_at = coalesce_time input.create.next_run_at clock in
    store_new s
      (new (record input.create { next_run_at = run_at }) (coalesce_time input.now clock') fresh)

abbrev store_planned : Store → Outcome Job → Outcome PlannedJob × Store
store_planned s (ok j) = Commands.ensure_planned s j
store_planned s (err e) = (err e, s)

abbrev plan_slot :
    Store
    → PlanDefinition
    → Time
    → Option String
    → Outcome (Time × String)
    → Outcome PlannedJob × Store
plan_slot s plan now fresh (ok (start, key)) =
    store_planned s (new (plan_params plan start key) now fresh)
plan_slot s plan now fresh (err e) = (err e, s)

-- `EnsurePlanned`. It reads the clock for the slot and for the creation time; `slot` falls back on
-- `time.Now()`, here the first reading again, where that is zero.
unfoldable pub ensure_planned :
    (Time → String)
    → Store
    → PlanDefinition
    → Time
    → Time
    → Time
    → Option String
    → Outcome PlannedJob × Store
ensure_planned format s plan at clock clock' fresh =
    plan_slot s plan (coalesce_time at clock') fresh
      (slot format plan (coalesce_time at clock) clock)

-- What one round of the planner's loop reads: the clock twice, and an id.
pub record Readings : Type 0 where
  pub clock : Time
  pub clock' : Time
  pub fresh : Option String

-- `EnsurePlans`, after the tick is fixed: an error ends the loop, and what earlier rounds stored
-- stays stored. `readings k` are those of round `k`.
unfoldable pub plans_loop :
    (Time → String)
    → (ℕ → Readings)
    → Time
    → ℕ
    → List PlanDefinition
    → List PlannedJob
    → Store
    → Outcome (List PlannedJob) × Store
plans_loop format readings tick k [] results s = (ok results, s)
plans_loop format readings tick k (plan ∷ plans) results s =
    let now = readings k in
    let (planned, s') = ensure_planned format s plan tick now.clock now.clock' now.fresh in
    elim planned [
      | err e ↦ (err e, s')
      | ok p ↦ plans_loop format readings tick (k + 1) plans (results ++ p ∷ []) s'
    ]

unfoldable pub ensure_plans :
    (Time → String)
    → (ℕ → Readings)
    → Store
    → List PlanDefinition
    → Time
    → Time
    → Outcome (List PlannedJob) × Store
unfolding plans_loop
ensure_plans format readings s plans at clock =
    plans_loop format readings (coalesce_time at clock) 0 plans [] s

unfoldable pub claim :
    Store → ClaimParams → Time → (ℕ → Option String) → Outcome (List ClaimedJob) × Store
claim s p clock fresh = Commands.claim s (record p { now = coalesce_time p.now clock }) fresh

unfoldable pub mark_running : Store → MarkRunningParams → Time → Outcome Job × Store
mark_running s p clock = Commands.mark_running s (record p { now = coalesce_time p.now clock })

unfoldable pub heartbeat : Store → HeartbeatParams → Time → Outcome HeartbeatResult × Store
heartbeat s p clock = Commands.heartbeat s (record p { now = coalesce_time p.now clock })

module _ (fl : Floats) (policy : BackoffPolicy fl.Float) where
  abbrev with_backoff : CompleteParams → Outcome Job → Outcome CompleteParams
  with_backoff p (ok j) = ok (record p { retry_delay = delay fl policy j.attempt_count })
  with_backoff p (err e) = err e

  -- A retryable failure with no delay of its own takes the delay of the policy.
  unfoldable pub completed_params : Store → CompleteParams → Outcome CompleteParams
  completed_params s p =
      if p.retryable && eqb_ℤ p.retry_delay (pos 0)
      then with_backoff p (Reaping.get s p.job_id)
      else ok p

  abbrev pub complete_with : Store → Outcome CompleteParams → Outcome CompletionResult × Store
  complete_with s (ok p) = Commands.complete s p
  complete_with s (err e) = (err e, s)

  unfoldable pub complete : Store → CompleteParams → Time → Outcome CompletionResult × Store
  unfolding completed_params
  complete s p clock =
      complete_with s (completed_params s (record p { now = coalesce_time p.now clock }))

  unfoldable pub reap_expired : Store → ℤ → Time → Time → Outcome (List ReapedLease) × Store
  reap_expired s limit at clock =
      Reaping.reap_expired s
        (record { now = coalesce_time at clock; limit = limit; delay = delay fl policy })

unfoldable pub cancel : Store → String → Time → Outcome Job × Store
cancel s job_id clock = Commands.cancel s (record { job_id = job_id; now = clock })
