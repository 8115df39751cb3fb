-- ===== src/Scheduler/Loops.antt =====
-- internal/scheduler/planner.go and internal/scheduler/reaper.go. `Clock` is read once per run;
-- the readings of the service's own clock are arguments too.
use auto_cert_x.Prelude.{ℕ, suc, String, List, [], ◌∷◌, ok, err, length, if◌then◌else◌}
use auto_cert_x.Prelude.Int.{ℤ}
use auto_cert_x.Job.Errors.{Outcome}
use auto_cert_x.Job.Clock.{Time}
use auto_cert_x.JobStore.Params.{PlannedJob}
use auto_cert_x.JobStore.State.{Store}
use auto_cert_x.JobService.Backoff.{Floats, BackoffPolicy}
use auto_cert_x.JobService.Plans.{PlanDefinition}
use auto_cert_x.JobService.Service
use auto_cert_x.JobService.Service.{Readings}

-- `if result.Created { created++ }`
unfoldable pub count_created : List PlannedJob → ℕ
count_created [] = 0
count_created (r ∷ rs) = if r.created then suc (count_created rs) else count_created rs

abbrev counted : {A : Type 0} → (A → ℕ) → Outcome A × Store → Outcome ℕ × Store
counted f (ok a, s) = (ok (f a), s)
counted f (err e, s) = (err e, s)

unfoldable pub planner_run_once :
    (Time → String) → (ℕ → Readings) → Store → List PlanDefinition → Time → Time → Outcome ℕ × Store
unfolding count_created
planner_run_once format readings s plans now clock =
    counted count_created (Service.ensure_plans format readings s plans now clock)

unfoldable pub reaper_run_once :
    (fl : Floats) → BackoffPolicy fl.Float → Store → ℤ → Time → Time → Outcome ℕ × Store
reaper_run_once fl policy s limit now clock =
    counted length (Service.reap_expired fl policy s limit now clock)
