-- ===== src/Orchestration/Restarting.antt =====
-- internal/workflow/service.go: a start job for a request whose workflow is in `order_pending`.
use auto_cert_x.Prelude.{
  String, ◌≡◌, refl, ap, Bool, true, false, some, Result, ok, err, inl, inr, if◌then◌else◌,
}
use auto_cert_x.Prelude.Exec.{
  Exec, Keeps, Keeps-bind, Keeps-or_leave, Keeps-ignore, Keeps-outcome, pure, leave, ◌>>=◌,
  or_leave, outcome, keeps_rules,
}
use auto_cert_x.Prelude.Runs.{
  Runs, Runs-bind, Runs-bind_known, Keeps-Runs, Runs-or_leave, Runs-never, Runs-from,
}
use auto_cert_x.Dict.{lookup}
use auto_cert_x.Job.Record.{Job}
use auto_cert_x.Resource.Errors.{ResourceError, Answer}
use auto_cert_x.Resource.Scope.{Scope}
use auto_cert_x.CertificateRequest.Status.{RequestStatus}
use auto_cert_x.CertificateRequest.State.{Request}
use auto_cert_x.CertificateRequest.Commands
use auto_cert_x.IssueWorkflow.Status.{WorkflowStatus}
use auto_cert_x.IssueWorkflow.State.{Workflow, request_key}
use auto_cert_x.IssueWorkflow.Commands as Flow
use auto_cert_x.IssueWorkflow.Refusals.{create-taken, get_by_request-indexed, record_order-refused}
use auto_cert_x.Orchestration.Drivers.{Drivers, DriverError, StartPayload}
use auto_cert_x.Orchestration.World.{World, driving, asking, on_requests, on_flows}
use auto_cert_x.Orchestration.Steps.{
  start_job_type, transition_request, update_workflow, create_workflow, created_or_found,
  ensure_workflow, run_from, adapter_failure, classified, calling, or_fail,
}
use auto_cert_x.Orchestration.Start.{job_scope, checked_start, open_order, process_start}
use auto_cert_x.Orchestration.Submit.{handle, process_job}
use auto_cert_x.Orchestration.Keeping.{Keeps-fail_from}
use auto_cert_x.Orchestration.Stuck.{JobsAre, jobs-Called, Ends-jobs, Gives, asking-Gives, if-Gives}

module _ (d : Drivers) (w : World d.Env) where
  abbrev Same : World d.Env → Type 0
  Same = JobsAre d w.jobs

  -- neither a job nor a workflow has changed
  abbrev Still : World d.Env → Type 0
  Still t = (t.jobs ≡ w.jobs) × (t.flows ≡ w.flows)

  Still-Same : (t : World d.Env) → Still t → Same t
  Still-Same t (e, same) = e

  transition-Still :
      (scope : Scope) (id : String) (next : RequestStatus)
      → Keeps Still (transition_request d scope id next)
  unfolding transition_request on_requests
  transition-Still scope id next = record { at = λ s h. h }

  run_from-Still :
      (status : RequestStatus) (scope : Scope) (r : Request)
      → Keeps Still (run_from d status scope r)
  unfolding run_from
  run_from-Still RequestStatus.running scope r = search keeps_rules
  run_from-Still _ scope r = search (keeps_rules, transition-Still)

  driving-Still :
      {A : Type 0} (call : d.Env → Result DriverError A × d.Env) → Keeps Still (driving d call)
  unfolding driving
  driving-Still call = record { at = λ s h. h }

  asking-Still : {A : Type 0} (question : World d.Env → Answer A) → Keeps Still (asking d question)
  unfolding asking
  asking-Still question = record { at = λ s h. h }

  leave-Ends : {E A : Type 0} (e : E) → Runs Same Same (λ a t. ⊥) (leave {A = A} e)
  unfolding leave
  leave-Ends e = record { at = λ s h. h }

  if-Ends :
      {E A : Type 0} (b : Bool) (act other : Exec (World d.Env) E A)
      → Runs Same Same (λ a t. ⊥) act
      → Runs Same Same (λ a t. ⊥) other
      → Runs Same Same (λ a t. ⊥) (if b then act else other)
  if-Ends true act other h k = h
  if-Ends false act other h k = k

  module _ (scope : Scope) (r : Request) (v : Workflow) where
    adapter_failure-Ends :
        {A : Type 0} (code : String) (e : DriverError)
        → Runs Same Same (λ a t. ⊥) (adapter_failure d {A = A} scope r v code e)
    unfolding adapter_failure
    adapter_failure-Ends code e =
        let k = jobs-Called d w.jobs in
        Runs-bind {Q = λ b t. Same t} _ _
          (Keeps-Runs _ (λ s h. h) (Keeps-ignore _ (k.updated scope v.id _)))
          (λ b. if-Ends _ _ _ (leave-Ends _) (
            Runs-bind {Q = λ b t. Same t} _ _
              (Keeps-Runs _ (λ s h. h)
                (Keeps-bind _ _ (Keeps-ignore _ (k.updated scope v.id _))
                  (λ c. Keeps-ignore _ (Keeps-fail_from d (λ e. Unit) Same k r.status scope r))))
              (λ c. leave-Ends _)))

    classified-Still :
        {A : Type 0} (code : String) (answer : Result DriverError A)
        → Runs Same Still (λ a t. Still t) (classified d scope r v code answer)
    unfolding classified pure
    classified-Still code (ok a) = record { at = λ s h. h }
    classified-Still code (err e) =
        Runs-never {P' = Same} _ Still-Same (adapter_failure-Ends code e)

    calling-Still :
        {A : Type 0} (code : String) (call : d.Env → Result DriverError A × d.Env)
        → Runs Same Still (λ a t. Still t) (calling d scope r v code call)
    unfolding calling
    calling-Still code call =
        Runs-bind {Q = λ b t. Still t} _ _
          (Keeps-Runs _ Still-Same (Keeps-outcome _ (driving-Still call))) (classified-Still code)

    module _ (stored : lookup v.id (w.flows).by_id ≡ some v)
        (pending : v.status ≡ WorkflowStatus.order_pending) where
      record_order-Ends :
          (code order_url finalize_url : String)
          → Runs Same Still
              (λ a t. ⊥)
              (or_fail d code
                (update_workflow d scope v.id (Flow.record_order order_url finalize_url)))
      unfolding update_workflow on_flows or_leave
      record_order-Ends code order_url finalize_url = record {
        at = λ s (unscheduled, same).
            let refused =
              record_order-refused w.flows scope v (d.now s.env).0 order_url finalize_url stored
                pending in
            rw (same, refused.1) unscheduled;
      }

      open_order-Ends : Runs Same Still (λ a t. ⊥) (open_order d scope r v)
      unfolding open_order
      open_order-Ends =
          Runs-bind {Q = λ b t. Still t} _ _
            (Keeps-Runs _ Still-Same (Keeps-or_leave _ _ (asking-Still _)))
            (λ refs. Runs-bind {Q = λ b t. Still t} _ _ (calling-Still _ _) (λ order.
              Runs-bind {Q = λ b t. ⊥} _ _ (record_order-Ends _ _ _)
                (λ ordered. record { at = λ s h. absurd h })))

      -- The workflow is found, and is not new.
      found_Runs :
          (e : ResourceError)
          → lookup (request_key scope r.id) (w.flows).by_request ≡ some v.id
          → Runs Same Still (λ x t. (x ≡ (v, false)) × Still t) (created_or_found d scope r (err e))
      unfolding created_or_found asking pure leave ◌>>=◌
      found_Runs ResourceError.conflict indexed = record {
        at = λ s (unscheduled, same).
            elim (get_by_request-indexed w.flows scope r.id v indexed stored) [
              | inl found ↦ rw (same, found) (refl, (unscheduled, refl))
              | inr (e, bad) ↦ rw (same, bad) unscheduled
            ];
      }
      found_Runs _ indexed = record { at = λ s (unscheduled, same). unscheduled }

      ensure_Runs :
          lookup (request_key scope r.id) (w.flows).by_request ≡ some v.id
          → Runs Same Still (λ x t. (x ≡ (v, false)) × Still t) (ensure_workflow d scope r)
      unfolding ensure_workflow create_workflow on_flows outcome ◌>>=◌
      ensure_Runs indexed = record {
        at = λ s (unscheduled, same).
            let taken =
              create-taken d.lower w.flows scope
                (record {
                  certificate_request_id = r.id;
                  ca_account_id = r.ca_account_id;
                  workflow_type = r.request_type;
                })
                (d.now s.env).0 ((d.new_ids (d.now s.env).1).0 0) v.id indexed in
            rw (same, taken.1) ((found_Runs taken.0 indexed).at _ (unscheduled, refl));
      }

  payload-Gives :
      (p : StartPayload) (raw : Result String StartPayload)
      → raw ≡ ok p
      → Gives d w p (checked_start d raw)
  unfolding checked_start
  payload-Gives p raw decoded = rw decoded (if-Gives d w _ _ p)

-- A start job for a request whose workflow was left in `order_pending`, as when storing the challenges
-- failed after the order was recorded, schedules no job that goes on with the workflow, and no other,
-- whatever the drivers answer: the jobs stay as they were.
pub order_pending_stuck :
    (d : Drivers) (j : Job) (w : World d.Env) (p : StartPayload) (r : Request) (v : Workflow)
    → j.job_type ≡ start_job_type
    → d.decode_start j.payload ≡ ok p
    → Commands.get w.requests (job_scope j) p.request_id ≡ ok r
    → lookup (request_key (job_scope j) r.id) (w.flows).by_request ≡ some v.id
    → lookup v.id (w.flows).by_id ≡ some v
    → v.status ≡ WorkflowStatus.order_pending
    → (process_job d j w).1.jobs ≡ w.jobs
unfolding process_job handle process_start
order_pending_stuck d j w p r v starting decoded asked indexed stored pending =
    let scope = job_scope j in
    rw starting (
      Ends-jobs (JobsAre d w.jobs) _ _ (
        (Runs-bind_known p _ _ (payload-Gives d w p (d.decode_start j.payload) decoded) (
            Runs-bind_known r _ _ (asking-Gives d w _ _ r asked) (
              Runs-bind {Q = λ b t. Still d w t} _ _
                (Runs-from {P' = Still d w} _
                  (λ t start. (ap (λ x. x.jobs) start, ap (λ x. x.flows) start))
                  (Keeps-Runs _ (Still-Same d w)
                    (Keeps-or_leave _ _ (run_from-Still d w r.status scope r))))
                (λ running.
                  Runs-bind_known (v, false) _ _
                    (Runs-or_leave _ _ (ensure_Runs d w scope r v stored pending indexed))
                    (rw pending (open_order-Ends d w scope r v stored pending)))))).at
          w refl))
