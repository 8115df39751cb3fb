-- ===== src/Tests/Orchestration.antt =====
-- The theorems on the orchestration, at one request with its workflow, and drivers that answer yes.
use auto_cert_x.Prelude.{
  ℕ, suc, String, true, false, ◌≡◌, ◌≢◌, refl, none, some, [], ◌∷◌, ok, ne_of_false,
}
use auto_cert_x.Prelude.Int.{pos}
use auto_cert_x.Text.{trim_space}
use auto_cert_x.Dict.{lookup, lookup_list}
use auto_cert_x.Job.Record.{Job, zero_job}
use auto_cert_x.JobStore.State.{empty}
use auto_cert_x.Resource.Scope.{Scope, validate, equals}
use auto_cert_x.CertificateRequest.Status as RequestStatus
use auto_cert_x.CertificateRequest.Progress as RequestProgress
use auto_cert_x.CertificateRequest.State.{Request, DomainRef}
use auto_cert_x.CertificateRequest.Commands
use auto_cert_x.IssueWorkflow.Status.{WorkflowStatus}
use auto_cert_x.IssueWorkflow.ChallengeStatus as ChallengeStatus
use auto_cert_x.IssueWorkflow.State.{Workflow, Challenge, scoped}
use auto_cert_x.IssueWorkflow.Ways
use auto_cert_x.Orchestration.Drivers.{Drivers, Order}
use auto_cert_x.Orchestration.World.{World}
use auto_cert_x.Orchestration.Steps.{start_job_type, continue_job_type}
use auto_cert_x.Orchestration.Submit.{process_job}
use auto_cert_x.Orchestration.Progress.{
  process_job-request, process_job-workflow, process_jobs, ended_request_unchanged,
  ended_workflow_kept,
}
use auto_cert_x.Orchestration.Keeping.{IsClosed}
use auto_cert_x.IssueWorkflow.Challenges.{
  ensure_challenges, update_challenge_status, list_challenges,
}
use auto_cert_x.IssueWorkflow.ChallengeStatus.{can_challenge_transition}
use auto_cert_x.IssueWorkflow.State
use auto_cert_x.IssueWorkflow.Issuance.{is_final}
use auto_cert_x.Orchestration.Steps.{calling}
use auto_cert_x.IssueWorkflow.Commands.{run_update, create, update_workflow, apply_update}
use auto_cert_x.IssueWorkflow.Status.{can_workflow_transition}
use auto_cert_x.JobService.Service.{schedule}
use auto_cert_x.Job.Record.{new}
use auto_cert_x.JobStore.Commands as JobCommands
use auto_cert_x.Prelude.Exec.{◌>>=◌, or_leave, outcome, ignore}
use auto_cert_x.Orchestration.World.{
  asking, asking_jobs, on_flows, on_requests, on_jobs, driving, reading_clock,
}
use auto_cert_x.Dict.{insert}
use auto_cert_x.Text.{to_lower}
use auto_cert_x.Resource.Scope.{environment_key}
use auto_cert_x.Prelude.{ap, if◌then◌else◌, ltb, ◌+◌, ◌≤◌, arith}
use auto_cert_x.Orchestration.Stuck.{presenting_stuck}
use auto_cert_x.Orchestration.Restarting.{order_pending_stuck}
use auto_cert_x.Prelude.{inl, inr}

abbrev here : Scope
here = record { tenant_id = "t"; project_id = "p"; environment_id = "e" }

abbrev one_order : Order
one_order = record {
  order_url = "https://ca/order";
  finalize_url = "https://ca/finalize";
  challenges =
      record {
        domain_asset_id = "d";
        identifier = "example.org";
        challenge_type = "http-01";
        token = "tok";
        key_authorization = "auth";
        http_path = "/.well-known/acme-challenge/tok";
        dns_record_name = "";
        dns_record_value = "";
      }
      ∷ [];
}

-- Every call succeeds; the clock counts the readings, and the source of ids draws "w" once.
abbrev calm : Drivers
calm = record {
  Env = ℕ;
  lower = λ c. c;
  now = λ t. (t, suc t);
  new_ids = λ t. (λ k. if ltb t 100 then "w" else "x", t + 1000);
  job_id = λ t. (some "job", t);
  create_order = λ input t. (ok one_order, t);
  notify_challenge_ready = λ input t. (ok tt, t);
  poll_authorization = λ input t. (ok "valid", t);
  finalize_order = λ url t. (ok tt, t);
  download_certificate = λ url t. (ok "certificate", t);
  present_txt = λ input t. (ok tt, t);
  cleanup_txt = λ input t. (ok tt, t);
  check_propagation = λ input t. (ok true, t);
  http_present = λ input t. (ok tt, t);
  http_cleanup = λ input t. (ok tt, t);
  encode_start = λ payload. [];
  decode_start = λ raw. ok (record { request_id = "r" });
  encode_continue = λ payload. [];
  decode_continue = λ raw.
      ok (record { request_id = "r"; workflow_id = "w"; expected_status = ""; trigger = "manual" });
  quoted = λ s. s;
  format_time = λ t. "now";
  describe = λ e. "refused";
  describe_job = λ e. "refused";
}

abbrev request : RequestStatus.RequestStatus → Request
request status = record {
  id = "r";
  scope = here;
  request_type = "issue";
  request_source = "manual";
  asset_id = "";
  ca_account_id = "ca";
  algorithm = "";
  certificate_type = "single";
  challenge_type = "http-01";
  common_name = "example.org";
  status = status;
  requested_by = "";
  idempotency_key = "key";
  reason = "";
  submitted_at = none;
  created_at = 1;
  updated_at = 1;
}

abbrev workflow : WorkflowStatus → Workflow
workflow status = record {
  id = "w";
  scope = here;
  certificate_request_id = "r";
  ca_account_id = "ca";
  workflow_type = "issue";
  status = status;
  order_url = "";
  finalize_url = "";
  csr_ref = "";
  certificate_ref = "";
  last_error_code = "";
  last_error_message = "";
  started_at = none;
  finished_at = none;
  created_at = 1;
  updated_at = 1;
}

abbrev ref : DomainRef
ref = record {
  domain_id = "d";
  relation_type = "primary";
  sort_order = pos 1;
  domain_name = "example.org";
  allow_wildcard = false;
}

-- a request with its domain and a workflow
abbrev world : RequestStatus.RequestStatus → WorkflowStatus → World ℕ
world asked reached = record {
  requests = record {
    by_id = ("r", request asked) ∷ [];
    by_idempotency = [];
    domains = ("r", ref ∷ []) ∷ [];
  };
  flows = record {
    by_id = ("w", workflow reached) ∷ [];
    by_request = ("t/p/e/r", "w") ∷ [];
    challenges = [];
  };
  assets = record { by_id = []; by_name = []; versions = [] };
  domains = record { by_id = []; by_name = []; certificates = [] };
  issuers = record { by_id = []; by_name = [] };
  jobs = empty;
  env = 10;
}

abbrev job_of : String → Job
job_of job_type = record zero_job {
  tenant_id = "t";
  project_id = "p";
  environment_id = "e";
  job_type = job_type;
}

abbrev challenge : ChallengeStatus.ChallengeStatus → Challenge
challenge status = record {
  id = "c";
  scope = here;
  issue_workflow_id = "w";
  domain_asset_id = "d";
  challenge_type = "http-01";
  identifier = "example.org";
  token = "tok";
  key_authorization = "auth";
  http_path = "";
  dns_record_name = "";
  dns_record_value = "";
  status = status;
  presented_at = none;
  validated_at = none;
  cleaned_at = none;
  created_at = 1;
  updated_at = 1;
}

-- the source of ids is past "w"
abbrev Past : ℕ → Type 0
Past e = 100 ≤ e

Past-IsClosed : IsClosed calm Past
Past-IsClosed = record {
  reads = λ e q. omega arith;
  draws = λ e q. omega arith;
  draws_job = λ e q. q;
  orders = λ x e q. q;
  notifies = λ x e q. q;
  polls = λ x e q. q;
  finalizes = λ x e q. q;
  downloads = λ x e q. q;
  presents_txt = λ x e q. q;
  cleans_txt = λ x e q. q;
  checks = λ x e q. q;
  presents_http = λ x e q. q;
  cleans_http = λ x e q. q;
}

x-ne-w : ◌≢◌ {A = String} "x" "w"
x-ne-w = ne_of_false "x" "w" refl

not_drawn : (e : ℕ) → Past e → (n : ℕ) → (calm.new_ids e).0 n ≢ "w"
not_drawn e q n = let late : ltb e 100 ≡ false = ground arith in rw late x-ne-w

process_job-request_example :
    (v : Request) × (lookup "r"
        (process_job calm
          (job_of start_job_type)
          (world RequestStatus.submitted WorkflowStatus.created)).1.requests.by_id
      ≡ some v)
    × RequestProgress.Way RequestStatus.submitted v.status
unfolding lookup
process_job-request_example =
    process_job-request calm (job_of start_job_type)
      (world RequestStatus.submitted WorkflowStatus.created) "r" refl

-- The start job makes the workflow "w" of the request.
unfoldable opened : World ℕ
unfolding process_job ensure_challenges run_update lookup insert lookup_list trim_space to_lower
    equals environment_key validate ◌>>=◌ or_leave outcome ignore asking asking_jobs on_flows
    on_requests on_jobs driving reading_clock Commands.get Commands.list_domains create
    update_workflow apply_update can_workflow_transition schedule new JobCommands.create
opened =
    (process_job calm (job_of start_job_type)
      (record (world RequestStatus.running WorkflowStatus.created) {
        flows = record { by_id = []; by_request = []; challenges = [] };
      })).1

opened_holds :
    (v : Workflow) × (lookup "w" opened.flows.by_id ≡ some v)
    × (v.status ≡ WorkflowStatus.challenge_pending)
    × (Past opened.env)
unfolding opened
opened_holds = (_, refl, refl, omega arith)

abbrev going_on : Job
going_on = job_of continue_job_type

process_job-workflow_example :
    (u : Workflow) × (lookup "w" (process_job calm going_on opened).1.flows.by_id ≡ some u)
    × Ways.Way opened_holds.0.status u.status
process_job-workflow_example =
    process_job-workflow calm Past going_on opened "w" Past-IsClosed not_drawn opened_holds.3
      opened_holds.1

-- The next jobs take it to its certificate and complete the request.
unfoldable issued : World ℕ
unfolding process_jobs opened update_challenge_status can_challenge_transition list_challenges
    State.get scoped calling
issued = process_jobs calm (going_on ∷ going_on ∷ going_on ∷ going_on ∷ []) opened

issued_holds :
    (v : Workflow) × (lookup "w" issued.flows.by_id ≡ some v)
    × (v.status ≡ WorkflowStatus.issued)
    × (Past issued.env)
unfolding issued
issued_holds = (_, refl, refl, omega arith)

ended_workflow_kept_example :
    (u : Workflow) × (lookup "w"
        (process_jobs calm (going_on ∷ job_of start_job_type ∷ []) issued).flows.by_id
      ≡ some u)
    × (u.status ≡ issued_holds.0.status)
ended_workflow_kept_example =
    ended_workflow_kept calm Past (going_on ∷ job_of start_job_type ∷ []) issued "w" Past-IsClosed
      not_drawn issued_holds.3 issued_holds.1 (ap is_final issued_holds.2)

ended_request_unchanged_example :
    lookup "r"
      (process_jobs calm
        (job_of start_job_type ∷ going_on ∷ [])
        (world RequestStatus.cancelled WorkflowStatus.challenge_pending)).requests.by_id
    ≡ some (request RequestStatus.cancelled)
unfolding lookup
ended_request_unchanged_example =
    ended_request_unchanged calm (job_of start_job_type ∷ going_on ∷ [])
      (world RequestStatus.cancelled WorkflowStatus.challenge_pending) "r" refl refl

-- a workflow whose second challenge was left in `presenting`
abbrev interrupted : World ℕ
interrupted = record (world RequestStatus.running WorkflowStatus.challenge_pending) {
  flows = record {
    by_id = ("w", workflow WorkflowStatus.challenge_pending) ∷ [];
    by_request = ("t/p/e/r", "w") ∷ [];
    challenges =
        ("w", challenge ChallengeStatus.ready ∷ challenge ChallengeStatus.presenting ∷ []) ∷ [];
  };
}

presenting_stuck_example : (process_job calm going_on interrupted).1.jobs ≡ empty
unfolding Commands.get State.get scoped list_challenges validate equals lookup lookup_list
    trim_space
presenting_stuck_example =
    presenting_stuck calm going_on interrupted
      (record { request_id = "r"; workflow_id = "w"; expected_status = ""; trigger = "manual" })
      (request RequestStatus.running) (workflow WorkflowStatus.challenge_pending)
      (challenge ChallengeStatus.ready ∷ challenge ChallengeStatus.presenting ∷ []) refl refl refl
      refl refl refl (challenge ChallengeStatus.presenting, inr (inl refl), refl)

order_pending_stuck_example :
    (process_job calm
      (job_of start_job_type)
      (world RequestStatus.running WorkflowStatus.order_pending)).1.jobs
    ≡ empty
unfolding Commands.get environment_key equals lookup trim_space validate
order_pending_stuck_example =
    order_pending_stuck calm (job_of start_job_type)
      (world RequestStatus.running WorkflowStatus.order_pending) (record { request_id = "r" })
      (request RequestStatus.running) (workflow WorkflowStatus.order_pending) refl refl refl refl
      refl refl
