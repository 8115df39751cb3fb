-- ===== src/Orchestration/Start.antt =====
-- internal/workflow/service.go: `processStartJob`, which opens the ACME order.
use Prim.Native.String.{◌++◌}
use auto_cert_x.Prelude.{String, Bool, false, not, List, map, Result, ok, err, ◌==◌, if◌then◌else◌}
use auto_cert_x.Prelude.Exec.{pure, leave, ◌>>=◌, ◌>>◌}
use auto_cert_x.Text.{trim_space}
use auto_cert_x.Job.Record.{Job, Payload}
use auto_cert_x.Resource.Errors.{ResourceError}
use auto_cert_x.Resource.Scope.{Scope}
use auto_cert_x.CertificateRequest.State.{DomainRef, Request}
use auto_cert_x.CertificateRequest.Commands
use auto_cert_x.IssueWorkflow.Status.{WorkflowStatus}
use auto_cert_x.IssueWorkflow.State.{Workflow, Challenge, ChallengeInput}
use auto_cert_x.IssueWorkflow.Commands.{record_order}
use auto_cert_x.IssueWorkflow.Challenges.{ensure_challenges}
use auto_cert_x.Orchestration.Drivers.{
  Drivers, DomainIdentifier, OrderRequest, OrderChallenge, StartPayload,
}
use auto_cert_x.Orchestration.World.{asking, on_flows}
use auto_cert_x.Orchestration.Steps.{
  failure, Act, Handling, run_from, or_fail, or_schedule_failure, update_workflow,
  ensure_request_running, ensure_workflow, ensure_continue_job, calling,
}

-- `scopeFromJob`
abbrev pub job_scope : Job → Scope
job_scope j = record {
  tenant_id = j.tenant_id;
  project_id = j.project_id;
  environment_id = j.environment_id;
}

-- `mapOrderIdentifiers`
abbrev pub order_identifiers : List DomainRef → List DomainIdentifier
order_identifiers refs =
    map (λ (r : DomainRef). record { domain_asset_id = r.domain_id; name = r.domain_name }) refs

abbrev pub challenge_inputs : List OrderChallenge → List ChallengeInput
challenge_inputs challenges =
    map
      (λ (c : OrderChallenge). record {
        domain_asset_id = c.domain_asset_id;
        challenge_type = c.challenge_type;
        identifier = c.identifier;
        token = c.token;
        key_authorization = c.key_authorization;
        http_path = c.http_path;
        dns_record_name = c.dns_record_name;
        dns_record_value = c.dns_record_value;
      })
      challenges

abbrev pub order_request : Request → List DomainRef → OrderRequest
order_request r refs = record {
  request_id = r.id;
  common_name = r.common_name;
  certificate_type = r.certificate_type;
  challenge_type = r.challenge_type;
  identifiers = order_identifiers refs;
}

-- a workflow that was there before and is past its order
abbrev pub is_ordered : Workflow → Bool → Bool
is_ordered w created = elim w.status [
  | WorkflowStatus.created ↦ false
  | WorkflowStatus.order_pending ↦ false
  | _ ↦ not created
]

module _ (d : Drivers) where
  open d use {Env, describe, decode_start, create_order}

  -- `parseStartPayload`
  unfoldable pub checked_start : Result String StartPayload → Handling d StartPayload
  checked_start (err e) =
      leave (failure "INVALID_JOB_PAYLOAD" ("decode start workflow payload: " ++ e))
  checked_start (ok p) =
      if trim_space p.request_id == ""
      then leave (
          failure "INVALID_JOB_PAYLOAD"
            ("request_id required: " ++ describe ResourceError.validation))
      else pure p

  abbrev parsed_start : Payload → Handling d StartPayload
  parsed_start raw = checked_start (decode_start raw)

  unfoldable pub create_challenges :
      Scope → String → List OrderChallenge → Act d (List Challenge × Workflow)
  create_challenges scope id challenges =
      on_flows d (λ now fresh s.
        ensure_challenges d.lower s scope id (challenge_inputs challenges) now fresh)

  -- the order is made and recorded, its challenges are stored, and the next job is scheduled
  unfoldable pub open_order : Scope → Request → Workflow → Handling d Unit
  unfolding calling update_workflow ensure_continue_job create_challenges
  open_order scope r w = do
    refs ←
        or_fail d "REQUEST_DOMAIN_LOOKUP_FAILED"
          (asking d (λ s. Commands.list_domains s.requests scope r.id))
    order ← calling d scope r w "ACME_ORDER_FAILED" (create_order (order_request r refs))
    ordered ←
        or_fail d "WORKFLOW_ORDER_RECORD_FAILED"
          (update_workflow d scope w.id (record_order order.order_url order.finalize_url))
    challenged ←
        or_fail d "WORKFLOW_CHALLENGE_CREATE_FAILED"
          (create_challenges scope ordered.id order.challenges)
    or_schedule_failure d (ensure_continue_job d r challenged.1 WorkflowStatus.challenge_pending)
    pure tt

  unfoldable pub process_start : Job → Handling d Unit
  unfolding checked_start open_order run_from ensure_workflow ensure_continue_job
  process_start j = do
    let scope = job_scope j
    p ← parsed_start j.payload
    r ← or_fail d "REQUEST_NOT_FOUND" (asking d (λ s. Commands.get s.requests scope p.request_id))
    or_fail d "REQUEST_STATE_INVALID" (ensure_request_running d scope r)
    found ← or_fail d "WORKFLOW_CREATE_FAILED" (ensure_workflow d scope r)
    if is_ordered found.0 found.1
        then or_schedule_failure d (ensure_continue_job d r found.0 (found.0).status) >> pure tt
        else open_order scope r found.0
