-- ===== src/Orchestration/World.antt =====
-- The services that internal/workflow/service.go holds, as one state, and a call of each as an
-- action on it. A call reads the clock and is given the ids to draw from first, whether it comes to use
-- them or not. No other caller acts between the calls of one action.
use auto_cert_x.Prelude.{ℕ, String, Option, Result}
use auto_cert_x.Prelude.Exec.{Exec}
use auto_cert_x.Job.Errors.{Error, Outcome}
use auto_cert_x.Job.Clock.{Time}
use auto_cert_x.JobStore.State.{Store}
use auto_cert_x.Resource.Errors.{ResourceError, Answer}
use auto_cert_x.CertificateRequest.State.{Requests}
use auto_cert_x.CertificateAsset.State.{Assets}
use auto_cert_x.Domains.State.{Governed}
use auto_cert_x.Issuer.{Issuers}
use auto_cert_x.IssueWorkflow.State.{Flows}
use auto_cert_x.Orchestration.Drivers.{Drivers, DriverError}

pub record World (Env : Type 0) : Type 0 where
  pub requests : Requests
  pub flows : Flows
  pub assets : Assets
  pub domains : Governed
  pub issuers : Issuers
  pub jobs : Store
  pub env : Env

module _ (d : Drivers) where
  open d use {Env, now, new_ids, job_id}

  -- the drivers
  unfoldable pub driving :
      {A : Type 0} → (Env → Result DriverError A × Env) → Exec (World Env) DriverError A
  driving call w = let (r, env) = call w.env in (r, record w { env = env })

  unfoldable pub reading_clock : {E : Type 0} → Exec (World Env) E Time
  reading_clock w = let (t, env) = now w.env in (Result.ok t, record w { env = env })

  -- reads of the services
  unfoldable pub asking : {A : Type 0} → (World Env → Answer A) → Exec (World Env) ResourceError A
  asking question w = (question w, w)

  unfoldable pub asking_jobs : {A : Type 0} → (Store → Outcome A) → Exec (World Env) Error A
  asking_jobs question w = (question w.jobs, w)

  -- calls that change the state of one service
  unfoldable pub on_requests :
      {A : Type 0}
      → (Time → String → Requests → Answer A × Requests)
      → Exec (World Env) ResourceError A
  on_requests call w =
      let (t, env) = now w.env in
      let (ids, env') = new_ids env in
      let (r, requests) = call t (ids 0) w.requests in
      (r, record w { requests = requests; env = env' })

  unfoldable pub on_flows :
      {A : Type 0}
      → (Time → (ℕ → String) → Flows → Answer A × Flows)
      → Exec (World Env) ResourceError A
  on_flows call w =
      let (t, env) = now w.env in
      let (ids, env') = new_ids env in
      let (r, flows) = call t ids w.flows in (r, record w { flows = flows; env = env' })

  unfoldable pub on_assets :
      {A : Type 0}
      → (Time → String → String → Assets → Answer A × Assets)
      → Exec (World Env) ResourceError A
  on_assets call w =
      let (t, env) = now w.env in
      let (ids, env') = new_ids env in
      let (r, assets) = call t (ids 0) (ids 1) w.assets in
      (r, record w { assets = assets; env = env' })

  unfoldable pub on_domains :
      {A : Type 0} → (Governed → Answer A × Governed) → Exec (World Env) ResourceError A
  on_domains call w = let (r, domains) = call w.domains in (r, record w { domains = domains })

  -- the job service reads the clock twice and draws one id
  unfoldable pub on_jobs :
      {A : Type 0}
      → (Time → Time → Option String → Store → Outcome A × Store)
      → Exec (World Env) Error A
  on_jobs call w =
      let (t, env) = now w.env in
      let (t', env') = now env in
      let (id, env'') = job_id env' in
      let (r, jobs) = call t t' id w.jobs in (r, record w { jobs = jobs; env = env'' })
