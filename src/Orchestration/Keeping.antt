-- ===== src/Orchestration/Keeping.antt =====
-- What every handler of internal/workflow/service.go keeps: a property of the services that each of
-- its calls keeps.
use auto_cert_x.Prelude.{String, false, List, Result, ok, err}
use auto_cert_x.Prelude.Exec.{
  Keeps, Keeps-pure, Keeps-leave, Keeps-if, Keeps-bind, Keeps-outcome, Keeps-ignore, keeps_rules,
}
use auto_cert_x.Job.Errors.{Error, Outcome}
use auto_cert_x.Job.Clock.{Time}
use auto_cert_x.Job.Record.{Job}
use auto_cert_x.JobStore.State.{Store}
use auto_cert_x.JobService.Service.{ScheduleInput}
use auto_cert_x.Resource.Errors.{ResourceError, Answer}
use auto_cert_x.Resource.Scope.{Scope}
use auto_cert_x.CertificateRequest.Status.{RequestStatus}
use auto_cert_x.CertificateRequest.State.{Request}
use auto_cert_x.CertificateAsset.State.{Asset}
use auto_cert_x.IssueWorkflow.Status.{WorkflowStatus}
use auto_cert_x.IssueWorkflow.ChallengeStatus.{ChallengeStatus}
use auto_cert_x.IssueWorkflow.State.{Workflow}
use auto_cert_x.IssueWorkflow.Commands.{Update}
use auto_cert_x.Orchestration.Drivers.{
  Drivers, DriverError, OrderChallenge, OrderRequest, AuthorizationInput, TxtRecord, Http01Material,
}
use auto_cert_x.Orchestration.World.{World, driving, reading_clock, asking, asking_jobs}
use auto_cert_x.Orchestration.Steps
use auto_cert_x.Orchestration.Steps.{
  transition_request, update_workflow, move_challenge, create_workflow, schedule,
}
use auto_cert_x.Orchestration.Start.{create_challenges}
use auto_cert_x.Orchestration.Continue.{link, store_asset}

-- A property of the state of the drivers that every call of them has and keeps, such as how far a
-- source of ids has come.
pub record IsClosed (d : Drivers) (Q : d.Env → Type 0) : Type 0 where
  pub reads : (e : d.Env) → Q e → Q (d.now e).1
  pub draws : (e : d.Env) → Q e → Q (d.new_ids e).1
  pub draws_job : (e : d.Env) → Q e → Q (d.job_id e).1
  pub orders : (x : OrderRequest) (e : d.Env) → Q e → Q (d.create_order x e).1
  pub notifies : (x : AuthorizationInput) (e : d.Env) → Q e → Q (d.notify_challenge_ready x e).1
  pub polls : (x : AuthorizationInput) (e : d.Env) → Q e → Q (d.poll_authorization x e).1
  pub finalizes : (x : String) (e : d.Env) → Q e → Q (d.finalize_order x e).1
  pub downloads : (x : String) (e : d.Env) → Q e → Q (d.download_certificate x e).1
  pub presents_txt : (x : TxtRecord) (e : d.Env) → Q e → Q (d.present_txt x e).1
  pub cleans_txt : (x : TxtRecord) (e : d.Env) → Q e → Q (d.cleanup_txt x e).1
  pub checks : (x : TxtRecord) (e : d.Env) → Q e → Q (d.check_propagation x e).1
  pub presents_http : (x : Http01Material) (e : d.Env) → Q e → Q (d.http_present x e).1
  pub cleans_http : (x : Http01Material) (e : d.Env) → Q e → Q (d.http_cleanup x e).1

-- Every property that says nothing is closed.
pub unit-IsClosed : (d : Drivers) → IsClosed d (λ e. Unit)
unit-IsClosed d = record {
  reads = λ e q. q;
  draws = λ e q. q;
  draws_job = λ e q. q;
  orders = λ x e q. q;
  notifies = λ x e q. q;
  polls = λ x e q. q;
  finalizes = λ x e q. q;
  downloads = λ x e q. q;
  presents_txt = λ x e q. q;
  cleans_txt = λ x e q. q;
  checks = λ x e q. q;
  presents_http = λ x e q. q;
  cleans_http = λ x e q. q;
}

-- The calls of the handlers but for scheduling a job, each of which keeps `P`, those of a driver where
-- they keep `Q`.
pub record Called (d : Drivers) (Q : d.Env → Type 0) (P : World d.Env → Type 0) : Type 1 where
  pub driven :
      {A : Type 0} (call : d.Env → Result DriverError A × d.Env)
      → ((e : d.Env) → Q e → Q (call e).1)
      → Keeps P (driving d call)
  pub timed : Keeps P (reading_clock d {E = Error})
  pub asked : {A : Type 0} (question : World d.Env → Answer A) → Keeps P (asking d question)
  pub asked_jobs : {A : Type 0} (question : Store → Outcome A) → Keeps P (asking_jobs d question)
  pub transitioned :
      (scope : Scope) (id : String) (next : RequestStatus)
      → Keeps P (transition_request d scope id next)
  pub created : (scope : Scope) (r : Request) → Keeps P (create_workflow d scope r)
  pub updated : (scope : Scope) (id : String) (u : Update) → Keeps P (update_workflow d scope id u)
  pub challenged :
      (scope : Scope) (id : String) (challenges : List OrderChallenge)
      → Keeps P (create_challenges d scope id challenges)
  pub moved :
      (scope : Scope) (id challenge_id : String) (next : ChallengeStatus)
      → Keeps P (move_challenge d scope id challenge_id next)
  pub stored :
      (scope : Scope) (r : Request) (w : Workflow) (ids : List String)
      → Keeps P (store_asset d scope r w ids)
  pub linked :
      (scope : Scope) (r : Request) (w : Workflow) (asset : Asset) (id : String)
      → Keeps P (link d scope r w asset id)

-- All calls of the handlers.
pub record Kept (d : Drivers) (Q : d.Env → Type 0) (P : World d.Env → Type 0) : Type 1 where
  pub calls : Called d Q P
  pub scheduled : (input : ScheduleInput) → Keeps P (schedule d input)

module _ (d : Drivers) (Q : d.Env → Type 0) (P : World d.Env → Type 0) (k : Called d Q P) where
  pub Keeps-run_from :
      (status : RequestStatus) (scope : Scope) (r : Request)
      → Keeps P (Steps.run_from d status scope r)
  unfolding Steps.run_from
  Keeps-run_from RequestStatus.running scope r = search keeps_rules
  Keeps-run_from _ scope r = search (keeps_rules, k.transitioned)

  pub Keeps-complete_from :
      (status : RequestStatus) (scope : Scope) (r : Request)
      → Keeps P (Steps.complete_from d status scope r)
  unfolding Steps.complete_from
  Keeps-complete_from RequestStatus.completed scope r = search keeps_rules
  Keeps-complete_from _ scope r = search (keeps_rules, k.transitioned)

  pub Keeps-fail_from :
      (status : RequestStatus) (scope : Scope) (r : Request)
      → Keeps P (Steps.fail_from d status scope r)
  unfolding Steps.fail_from
  Keeps-fail_from RequestStatus.failed scope r = search keeps_rules
  Keeps-fail_from _ scope r = search (keeps_rules, k.transitioned)

  pub Keeps-adapter_failure :
      {A : Type 0} (scope : Scope) (r : Request) (w : Workflow) (code : String) (e : DriverError)
      → Keeps P (Steps.adapter_failure d {A = A} scope r w code e)
  unfolding Steps.adapter_failure
  Keeps-adapter_failure scope r w code e =
      Keeps-bind _ _ (Keeps-ignore _ (k.updated scope w.id _)) (λ _.
        Keeps-if _ _ _ (Keeps-leave _) (
          Keeps-bind _ _
            (Keeps-bind _ _ (Keeps-ignore _ (k.updated scope w.id _))
              (λ _. Keeps-ignore _ (Keeps-fail_from r.status scope r)))
            (λ _. Keeps-leave _)))

  Keeps-classified :
      {A : Type 0} (scope : Scope) (r : Request) (w : Workflow) (code : String)
      (answer : Result DriverError A)
      → Keeps P (Steps.classified d scope r w code answer)
  unfolding Steps.classified
  Keeps-classified scope r w code (ok a) = search keeps_rules
  Keeps-classified scope r w code (err e) = Keeps-adapter_failure scope r w code e

  pub Keeps-calling :
      {A : Type 0} (scope : Scope) (r : Request) (w : Workflow) (code : String)
      (call : d.Env → Result DriverError A × d.Env)
      → ((e : d.Env) → Q e → Q (call e).1)
      → Keeps P (Steps.calling d scope r w code call)
  unfolding Steps.calling
  Keeps-calling scope r w code call closed =
      Keeps-bind _ _ (Keeps-outcome _ (k.driven call closed)) (Keeps-classified scope r w code)

  Keeps-created_or_found :
      (scope : Scope) (r : Request) (answer : Result ResourceError Workflow)
      → Keeps P (Steps.created_or_found d scope r answer)
  unfolding Steps.created_or_found
  Keeps-created_or_found scope r (ok w) = search keeps_rules
  Keeps-created_or_found scope r (err ResourceError.conflict) =
      Keeps-bind _ _ (k.asked _) (λ w. Keeps-pure (w, false))
  Keeps-created_or_found scope r (err _) = search keeps_rules

  pub Keeps-ensure_workflow :
      (scope : Scope) (r : Request) → Keeps P (Steps.ensure_workflow d scope r)
  unfolding Steps.ensure_workflow
  Keeps-ensure_workflow scope r =
      Keeps-bind _ _ (Keeps-outcome _ (k.created scope r)) (Keeps-created_or_found scope r)

module _ (d : Drivers) (Q : d.Env → Type 0) (P : World d.Env → Type 0) (k : Kept d Q P) where
  Keeps-scheduled : (key : String) (answer : Outcome Job) → Keeps P (Steps.scheduled d key answer)
  unfolding Steps.scheduled
  Keeps-scheduled key (ok j) = search keeps_rules
  Keeps-scheduled key (err Error.duplicate_job) = k.calls.asked_jobs _
  Keeps-scheduled key (err _) = search keeps_rules

  Keeps-schedule_once :
      (key : String) (input : Time → ScheduleInput) → Keeps P (Steps.schedule_once d key input)
  unfolding Steps.schedule_once
  Keeps-schedule_once key input =
      Keeps-bind _ _ k.calls.timed
        (λ now. Keeps-bind _ _ (Keeps-outcome _ (k.scheduled (input now))) (Keeps-scheduled key))

  pub Keeps-continue_job :
      (r : Request) (w : Workflow) (status : WorkflowStatus)
      → Keeps P (Steps.ensure_continue_job d r w status)
  unfolding Steps.ensure_continue_job
  Keeps-continue_job r w status = Keeps-schedule_once _ _
