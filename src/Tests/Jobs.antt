-- ===== src/Tests/Jobs.antt =====
-- The theorems on jobs and their repository, at the life of one job.
use auto_cert_x.Prelude.{
  ℕ, ◌*◌, ◌^◌, eqb, [], ◌≤◌, String, ◌≡◌, refl, true, false, some, ok, length, if◌then◌else◌,
}
use auto_cert_x.Prelude.Int.{pos, is_nonpos, ◌≤ℤ◌}
use auto_cert_x.Dict.{lookup, lookup_list}
use auto_cert_x.Job.Status.{is_leased}
use auto_cert_x.Text.{trim_space, trim_space_idem}
use auto_cert_x.Dict.{insert}
use auto_cert_x.Job.Errors.{Outcome}
use auto_cert_x.Job.Clock.{Time}
use auto_cert_x.Job.Record.{Job, new}
use auto_cert_x.Job.Effects.{Holds}
use auto_cert_x.JobService.Backoff.{BackoffPolicy, effective_maximum, delay, default_policy, exact}
use auto_cert_x.JobService.BackoffBounds.{
  delay_bounds, delay_default, exact-FloatLaws, IsModerate, IsInt64,
}
use auto_cert_x.JobService.Backoff.{effective_initial, effective_multiplier}
use auto_cert_x.Prelude.{◌<◌, arith}
use auto_cert_x.Prelude.Int.{ltb_ℤ}
use auto_cert_x.JobService.Plans.{PlanDefinition, slot}
use auto_cert_x.JobService.Service.{ensure_planned}
use auto_cert_x.JobService.Planning.{replan_idempotent}
use auto_cert_x.JobStore.Params.{ReapParams, PlannedJob}
use auto_cert_x.JobStore.State.{Store, empty, stored_job}
use auto_cert_x.JobStore.Commands
use auto_cert_x.JobStore.Reaping
use auto_cert_x.JobStore.Invariant.{IsConsistent}
use auto_cert_x.JobStore.Reachable.{claiming, Reachable-IsConsistent}
use auto_cert_x.JobStore.Ownership.{
  complete-Holds, count_active, OwnedBy, one_active, idempotency_unique,
}
use auto_cert_x.JobStore.Frames.{Untouched}
use auto_cert_x.JobStore.Finality.{terminal_forever, lease_respected}
use Prim.Native.Nat.{min}
use auto_cert_x.Job.AttemptStatus.{other}
use auto_cert_x.Scheduler.Worker.{Worker, Run}
use auto_cert_x.Prelude.{◌∷◌, false}
use auto_cert_x.Tests.Stores.{
  with_claim_alive, with_run, with_run-Reachable, complete_params, completion, with_claim,
  with_claim-Reachable, with_claim_holds, with_claim_leased, with_end, with_end-Reachable,
  with_end_found, with_end_ended, claim_params, attempt_ids,
}

Reachable-IsConsistent_example : IsConsistent with_end
Reachable-IsConsistent_example = Reachable-IsConsistent with_end-Reachable

one_active_example :
    let j = stored_job with_claim "j" in
    let history = lookup_list "j" with_claim.attempts in
    (count_active history ≡ (if is_leased j.status then 1 else 0))
    × OwnedBy j.lease_owner history
    × (length history ≤ j.max_attempts)
one_active_example = one_active with_claim-Reachable "j" with_claim_holds

idempotency_unique_example : ◌≡◌ {A = String} "j" "j"
idempotency_unique_example =
    idempotency_unique with_claim-Reachable "j" "j" with_claim_holds with_claim_holds refl

terminal_forever_example :
    Untouched "j" with_end (Commands.claim with_end claim_params attempt_ids).1
terminal_forever_example =
    terminal_forever with_end-Reachable (claiming claim_params attempt_ids refl) "j" with_end_found
      with_end_ended

abbrev reap_params : ReapParams
reap_params = record { now = 50; limit = pos 10; delay = λ n. pos 5 }

lease_respected_example :
    Untouched "j" with_claim (Commands.claim with_claim claim_params attempt_ids).1
    × Untouched "j" with_claim (Reaping.reap_expired with_claim reap_params).1
lease_respected_example =
    lease_respected with_claim "j" claim_params attempt_ids reap_params with_claim_holds
      with_claim_leased with_claim_alive

complete-Holds_example :
    (j : Job) × (lookup (trim_space "j") with_run.jobs ≡ some j)
    × (is_leased j.status ≡ true)
    × Holds j "w" 40
complete-Holds_example =
    complete-Holds with_run complete_params (Reachable-IsConsistent with_run-Reachable) completion.1

abbrev idle : BackoffPolicy ℕ
idle = record { initial = pos 0; maximum = pos 1000; multiplier = 3 }

below_maximum : (x : ℕ) → ltb_ℤ (pos x) (effective_maximum exact idle) ≡ true → x < 1000
unfolding effective_maximum
below_maximum x h = ground arith

idle-IsModerate : IsModerate exact IsInt64 idle
unfolding effective_initial effective_multiplier
idle-IsModerate = record {
  converts = refl;
  starts = omega arith;
  stays = λ x above below. let small = below_maximum x below in omega arith;
}

delay_bounds_example :
    (is_nonpos (delay exact idle 4) ≡ false) × (delay exact idle 4 ≤ℤ effective_maximum exact idle)
delay_bounds_example = delay_bounds exact IsInt64 idle 4 exact-FloatLaws idle-IsModerate

delay_default_example :
    delay exact (default_policy 2) 3 ≡ pos (min (5000000000 * 2 ^ 2) 300000000000)
delay_default_example = delay_default 2

trim_space_idem_example : trim_space (trim_space " w ") ≡ trim_space " w "
trim_space_idem_example = trim_space_idem " w "

-- An hourly plan, and the instants 01:00:10 and 01:00:20 of the first day.
abbrev hourly : PlanDefinition
hourly = record {
  name = "renew";
  tenant_id = "t";
  project_id = "p";
  environment_id = "e";
  job_type = "renew";
  aggregate_type = "certificate";
  aggregate_id = "c";
  priority = pos 0;
  payload = [];
  max_attempts = pos 0;
  interval = pos 3600000000000;
}

abbrev format : Time → String
format t = if eqb t 3600000000000 then "01:00:00" else "?"

unfoldable planned : Outcome PlannedJob × Store
unfolding ensure_planned slot new trim_space Commands.ensure_planned lookup insert
planned = ensure_planned format empty hourly 3610000000000 5 6 (some "j")

planned_ok : (r : PlannedJob) × (planned ≡ (ok r, planned.1))
unfolding planned
planned_ok = (_, refl)

replan_idempotent_example :
    ensure_planned format planned.1 hourly 3620000000000 7 8 (some "k")
    ≡ (ok (record { job = planned_ok.0.job; created = false }), planned.1)
unfolding planned
replan_idempotent_example =
    replan_idempotent format empty planned.1 hourly planned_ok.0 3610000000000 5 6 3620000000000 7 8
      (some "j") "k" planned_ok.1 refl

-- a worker that executes a job from 30 to 60, renewing its lease at 40 and 50
abbrev worker : Worker
worker = record { worker_id = "w"; max_jobs = pos 1; lease_ttl = pos 100 }

abbrev run : ℕ → Run
run k = record {
  started = 30;
  ticks = 40 ∷ 50 ∷ [];
  result = record {
    result_status = other "";
    retryable = false;
    retry_delay = pos 0;
    error_code = "";
    error_message = "";
    evidence_ref = "log";
  };
  finished = 60;
}
