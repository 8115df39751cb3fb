-- ===== src/Orchestration/Progress.antt =====
-- How the handling of a job (internal/workflow/service.go) moves requests and workflows.
use auto_cert_x.Prelude.{List, [], ◌∷◌, ℕ, String, ◌≡◌, ◌≢◌, refl, ◌∙◌, true, some}
use auto_cert_x.Dict.{lookup}
use auto_cert_x.Job.Record.{Job}
use auto_cert_x.Resource.Scope.{Scope}
use auto_cert_x.CertificateRequest.Status.{RequestStatus}
use auto_cert_x.CertificateRequest.State.{Request}
use auto_cert_x.CertificateRequest.Progress as RequestProgress
use auto_cert_x.CertificateRequest.Progress.{transition-Advances, transition-final}
use auto_cert_x.IssueWorkflow.Status.{WorkflowStatus}
use auto_cert_x.IssueWorkflow.State.{Workflow, Flows}
use auto_cert_x.IssueWorkflow.Progress.{Call, updating, ensuring, moving, after, after-Advances}
use auto_cert_x.IssueWorkflow.Issuance.{is_final}
use auto_cert_x.IssueWorkflow.Ways
use auto_cert_x.IssueWorkflow.Ways.{create-lookup}
use auto_cert_x.Orchestration.Start.{challenge_inputs}
use auto_cert_x.Orchestration.Drivers.{Drivers}
use auto_cert_x.Orchestration.World.{
  World, driving, reading_clock, asking, asking_jobs, on_requests, on_flows, on_assets, on_domains,
  on_jobs,
}
use auto_cert_x.Orchestration.Steps.{
  transition_request, update_workflow, move_challenge, create_workflow, schedule,
}
use auto_cert_x.Orchestration.Start.{create_challenges}
use auto_cert_x.Orchestration.Continue.{link, store_asset}
use auto_cert_x.Orchestration.Submit.{process_job}
use auto_cert_x.Orchestration.Keeping.{IsClosed, unit-IsClosed, Kept}
use auto_cert_x.Orchestration.Handlers.{Keeps-handle}

module _ (d : Drivers) (k : String) (from : RequestStatus) where
  -- The request `k` is there, and its status is on a way from `from`.
  abbrev RequestAt : World d.Env → Type 0
  RequestAt w =
      (r : Request) × (lookup k w.requests.by_id ≡ some r) × RequestProgress.Way from r.status

  RequestAt-transition :
      (scope : Scope) (id : String) (next : RequestStatus) (w : World d.Env)
      → RequestAt w
      → RequestAt (transition_request d scope id next w).1
  unfolding transition_request on_requests
  RequestAt-transition scope id next w (r, here, way) =
      let (v, there, further) =
        transition-Advances w.requests scope id next (d.now w.env).0 k r here in
      (v, there, RequestProgress.Way-join from r.status v.status way further)

  requests-Kept : Kept d (λ e. Unit) RequestAt
  unfolding driving reading_clock asking asking_jobs on_requests on_flows on_assets on_domains
      on_jobs transition_request update_workflow move_challenge create_workflow schedule
      create_challenges link store_asset
  requests-Kept = record {
    calls = record {
      driven = λ call closed. record { at = λ s h. h };
      timed = record { at = λ s h. h };
      asked = λ question. record { at = λ s h. h };
      asked_jobs = λ question. record { at = λ s h. h };
      transitioned = λ scope id next. record { at = λ s h. RequestAt-transition scope id next s h };
      created = λ scope r. record { at = λ s h. h };
      updated = λ scope id u. record { at = λ s h. h };
      challenged = λ scope id challenges. record { at = λ s h. h };
      moved = λ scope id challenge_id next. record { at = λ s h. h };
      stored = λ scope r w ids. record { at = λ s h. h };
      linked = λ scope r w asset id. record { at = λ s h. h };
    };
    scheduled = λ input. record { at = λ s h. h };
  }

module _ (d : Drivers) (k : String) (r : Request)
    (final : RequestProgress.is_final r.status ≡ true) where
  -- The request `k` is `r`.
  abbrev RequestIs : World d.Env → Type 0
  RequestIs w = lookup k w.requests.by_id ≡ some r

  final-Kept : Kept d (λ e. Unit) RequestIs
  unfolding driving reading_clock asking asking_jobs on_requests on_flows on_assets on_domains
      on_jobs transition_request update_workflow move_challenge create_workflow schedule
      create_challenges link store_asset
  final-Kept = record {
    calls = record {
      driven = λ call closed. record { at = λ s h. h };
      timed = record { at = λ s h. h };
      asked = λ question. record { at = λ s h. h };
      asked_jobs = λ question. record { at = λ s h. h };
      transitioned = λ scope id next. record {
        at = λ s h. transition-final s.requests scope id next (d.now s.env).0 k r final h;
      };
      created = λ scope r. record { at = λ s h. h };
      updated = λ scope id u. record { at = λ s h. h };
      challenged = λ scope id challenges. record { at = λ s h. h };
      moved = λ scope id challenge_id next. record { at = λ s h. h };
      stored = λ scope r w ids. record { at = λ s h. h };
      linked = λ scope r w asset id. record { at = λ s h. h };
    };
    scheduled = λ input. record { at = λ s h. h };
  }

module _ (d : Drivers) (k : String) (from : WorkflowStatus) where
  -- The workflow `k` is there, and its status is on a way from `from`.
  abbrev WorkflowAt : World d.Env → Type 0
  WorkflowAt w = (v : Workflow) × (lookup k w.flows.by_id ≡ some v) × Ways.Way from v.status

  -- a call of the workflow service takes it a step further
  WorkflowAt-call :
      (flows : Flows) (c : Call) (v : Workflow)
      → lookup k flows.by_id ≡ some v
      → Ways.Way from v.status
      → (u : Workflow) × (lookup k (after flows c).by_id ≡ some u) × Ways.Way from u.status
  WorkflowAt-call flows c v here way =
      let (u, there, step) = after-Advances flows c k v here in (u, there, Ways.go way step)

  module _ (Q : d.Env → Type 0) (closed : IsClosed d Q)
      (not_drawn : (e : d.Env) → Q e → (n : ℕ) → (d.new_ids e).0 n ≢ k) where
    -- and so far the source of ids has come
    abbrev FlowAt : World d.Env → Type 0
    FlowAt w = WorkflowAt w × Q w.env

    -- after a call has read the clock and drawn ids
    drawn : (e : d.Env) → Q e → Q (d.new_ids (d.now e).1).1
    drawn e q = closed.draws (d.now e).1 (closed.reads e q)

    flows-Kept : Kept d Q FlowAt
    unfolding driving reading_clock asking asking_jobs on_requests on_flows on_assets on_domains
        on_jobs transition_request update_workflow move_challenge create_workflow schedule
        create_challenges link store_asset after
    flows-Kept = record {
      calls = record {
        driven = λ call keeps. record { at = λ s h. (h.0, keeps s.env h.1) };
        timed = record { at = λ s h. (h.0, closed.reads s.env h.1) };
        asked = λ question. record { at = λ s h. h };
        asked_jobs = λ question. record { at = λ s h. h };
        transitioned = λ scope id next. record { at = λ s h. (h.0, drawn s.env h.1) };
        created = λ scope r. record {
          at = λ s h.
              let env = (d.now s.env).1 in
              let ((v, here, way), q) = h in
              (
                (
                  v,
                  create-lookup d.lower s.flows scope _ (d.now s.env).0 ((d.new_ids env).0 0) k
                        (not_drawn env (closed.reads s.env q) 0)
                      ∙ here,
                  way,
                ),
                drawn s.env q,
              );
        };
        updated = λ scope id u. record {
          at = λ s h.
              let ((v, here, way), q) = h in
              (
                WorkflowAt-call s.flows (updating scope id (d.now s.env).0 u) v here way,
                drawn s.env q,
              );
        };
        challenged = λ scope id challenges. record {
          at = λ s h.
              let ((v, here, way), q) = h in
              let (now, env) = d.now s.env in
              (
                WorkflowAt-call s.flows
                    (ensuring d.lower scope id (challenge_inputs challenges) now (d.new_ids env).0)
                    v here way,
                drawn s.env q,
              );
        };
        moved = λ scope id challenge_id next. record {
          at = λ s h.
              let ((v, here, way), q) = h in
              (
                WorkflowAt-call s.flows (moving scope id challenge_id next (d.now s.env).0) v here
                    way,
                drawn s.env q,
              );
        };
        stored = λ scope r w ids. record { at = λ s h. (h.0, drawn s.env h.1) };
        linked = λ scope r w asset id. record { at = λ s h. h };
      };
      scheduled = λ input. record {
        at = λ s h. (h.0, closed.draws_job _ (closed.reads _ (closed.reads s.env h.1)));
      };
    }

-- the jobs, handled one after the other
unfoldable pub process_jobs : (d : Drivers) → List Job → World d.Env → World d.Env
process_jobs d [] w = w
process_jobs d (j ∷ later) w = process_jobs d later (process_job d j w).1

process_jobs-keeps :
    (d : Drivers) (Q : d.Env → Type 0) (P : World d.Env → Type 0)
    → IsClosed d Q
    → Kept d Q P
    → (jobs : List Job) (w : World d.Env) → P w
    → P (process_jobs d jobs w)
unfolding process_jobs process_job
process_jobs-keeps d Q P closed k [] w h = h
process_jobs-keeps d Q P closed k (j ∷ later) w h =
    process_jobs-keeps d Q P closed k later (process_job d j w).1
      ((Keeps-handle d Q P closed k j).at w h)

-- Handling any job, whatever the drivers answer and however it ends, leaves every stored request
-- in place, and moves its status, if at all, along permitted transitions.
pub process_job-request :
    (d : Drivers) (j : Job) (w : World d.Env) (k : String) {r : Request}
    → lookup k w.requests.by_id ≡ some r
    → (v : Request) × (lookup k (process_job d j w).1.requests.by_id ≡ some v)
      × RequestProgress.Way r.status v.status
unfolding process_job
process_job-request d j w k {r} here =
    (Keeps-handle d _ _ (unit-IsClosed d) (requests-Kept d k r.status) j).at w
      (r, here, RequestProgress.stay refl)

-- Handling any job leaves a stored workflow in place, and moves its status, if at all, along permitted
-- transitions, where the source of ids does not draw the id of the workflow from now on: there is a
-- property of the drivers' state that holds now, that every call of the drivers keeps, and under which
-- this id is not drawn.
pub process_job-workflow :
    (d : Drivers) (Q : d.Env → Type 0) (j : Job) (w : World d.Env) (k : String) {v : Workflow}
    → IsClosed d Q
    → ((e : d.Env) → Q e → (n : ℕ) → (d.new_ids e).0 n ≢ k)
    → Q w.env
    → lookup k w.flows.by_id ≡ some v
    → (u : Workflow) × (lookup k (process_job d j w).1.flows.by_id ≡ some u)
      × Ways.Way v.status u.status
unfolding process_job
process_job-workflow d Q j w k {v} closed not_drawn now here =
    ((Keeps-handle d Q _ closed (flows-Kept d k v.status Q closed not_drawn) j).at w
      ((v, here, Ways.stay refl), now)).0

-- A request that was completed, failed or cancelled is stored unchanged after any jobs, whatever they
-- are, in whatever order they come, twice or late, and whatever the drivers answer.
pub ended_request_unchanged :
    (d : Drivers) (jobs : List Job) (w : World d.Env) (k : String) {r : Request}
    → lookup k w.requests.by_id ≡ some r
    → RequestProgress.is_final r.status ≡ true
    → lookup k (process_jobs d jobs w).requests.by_id ≡ some r
ended_request_unchanged d jobs w k {r} here ended =
    process_jobs-keeps d _ _ (unit-IsClosed d) (final-Kept d k r ended) jobs w here

-- A workflow that was issued, failed or cancelled is there in that status after any jobs, in whatever
-- order they come, twice or late, where the source of ids does not draw its id from now on, as for
-- `process_job-workflow`.
pub ended_workflow_kept :
    (d : Drivers) (Q : d.Env → Type 0) (jobs : List Job) (w : World d.Env) (k : String)
    {v : Workflow}
    → IsClosed d Q
    → ((e : d.Env) → Q e → (n : ℕ) → (d.new_ids e).0 n ≢ k)
    → Q w.env
    → lookup k w.flows.by_id ≡ some v
    → is_final v.status ≡ true
    → (u : Workflow) × (lookup k (process_jobs d jobs w).flows.by_id ≡ some u)
      × (u.status ≡ v.status)
ended_workflow_kept d Q jobs w k {v} closed not_drawn now here ended =
    let ((u, there, way), _) =
      process_jobs-keeps d Q _ closed (flows-Kept d k v.status Q closed not_drawn) jobs w
        ((v, here, Ways.stay refl), now) in
    (u, there, Ways.Way-is_final v.status u.status way ended)
