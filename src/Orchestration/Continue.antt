-- ===== src/Orchestration/Continue.antt =====
-- internal/workflow/service.go: `processContinueJob`, which takes a workflow on from its status.
use Prim.Native.String.{◌++◌}
use auto_cert_x.Prelude.{
  String, Bool, ◌||◌, none, List, [], ◌∷◌, map, Result, ok, err, ◌==◌, if◌then◌else◌,
}
use auto_cert_x.Prelude.Exec.{pure, leave, ◌>>=◌, ◌>>◌, or_leave, outcome, ignore}
use auto_cert_x.Text.{trim_space}
use auto_cert_x.Job.Record.{Job, Payload}
use auto_cert_x.Resource.Errors.{ResourceError}
use auto_cert_x.Resource.Scope.{Scope}
use auto_cert_x.CertificateRequest.State.{DomainRef, Request}
use auto_cert_x.CertificateRequest.Commands
use auto_cert_x.CertificateAsset.State.{Asset, AssetStatus, Version, IssueInput}
use auto_cert_x.CertificateAsset.Commands.{upsert_issued}
use auto_cert_x.Domains.Commands.{link_certificate_asset}
use auto_cert_x.IssueWorkflow.Status.{WorkflowStatus}
use auto_cert_x.IssueWorkflow.State
use auto_cert_x.IssueWorkflow.State.{Workflow, Challenge}
use auto_cert_x.IssueWorkflow.Commands.{transition, record_error, mark_issued}
use auto_cert_x.IssueWorkflow.Challenges.{list_challenges}
use auto_cert_x.Orchestration.Drivers.{Drivers, ContinuePayload}
use auto_cert_x.Orchestration.World.{asking, on_assets, on_domains}
use auto_cert_x.Orchestration.Steps.{
  done, failure, retry, text_of, Handling, Act, complete_from, or_fail, or_schedule_failure,
  update_workflow, ensure_request_completed, ensure_continue_job, calling,
}
use auto_cert_x.Orchestration.Start.{job_scope}
use auto_cert_x.Orchestration.Rounds.{continue_pending, continue_processing}

abbrev text_of_asset : AssetStatus → String
text_of_asset AssetStatus.active = "active"
text_of_asset AssetStatus.expiring = "expiring"
text_of_asset AssetStatus.renewing = "renewing"
text_of_asset AssetStatus.deploy_failed = "deploy_failed"
text_of_asset AssetStatus.expired = "expired"
text_of_asset AssetStatus.revoked = "revoked"
text_of_asset AssetStatus.orphaned = "orphaned"
text_of_asset AssetStatus.unset = ""

module _ (d : Drivers) where
  open d use {Env, describe, decode_continue, quoted}

  module _ (scope : Scope) (r : Request) (w : Workflow) where
    -- a workflow whose challenges are valid enters `finalizing` first
    unfoldable pub finalizing_from : WorkflowStatus → Handling d Workflow
    unfolding update_workflow
    finalizing_from WorkflowStatus.challenge_valid =
        or_fail d "WORKFLOW_STATE_FAILED"
          (update_workflow d scope w.id (transition WorkflowStatus.finalizing))
    finalizing_from _ = pure w

    -- an error of the last steps is recorded, and they are tried again
    unfoldable pub tried : {A : Type 0} → String → Result ResourceError A → Handling d A
    unfolding update_workflow
    tried code (ok a) = pure a
    tried code (err e) =
        ignore (update_workflow d scope w.id (record_error code (describe e)))
        >> leave (retry code (describe e))

    -- `LinkCertificateAsset` for each domain
    unfoldable pub link : Asset → String → Act d Unit
    link asset id = on_domains d (λ s. link_certificate_asset s scope id (record {
      id = asset.id;
      name = asset.name;
      status = text_of_asset asset.status;
      expires_at = none;
    }))

    unfoldable pub link_all : Asset → List String → Handling d Unit
    unfolding tried link
    link_all asset [] = pure tt
    link_all asset (id ∷ later) = do
      linked ← outcome (link asset id)
      tried "ASSET_LINK_FAILED" linked
      link_all asset later

    abbrev issue_input : List String → IssueInput
    issue_input domain_ids = record {
      asset_id = r.asset_id;
      name = r.common_name;
      ca_account_id = r.ca_account_id;
      certificate_type = r.certificate_type;
      challenge_type = r.challenge_type;
      common_name = r.common_name;
      domain_ids = domain_ids;
      certificate_request_id = r.id;
      issue_workflow_id = w.id;
      certificate_ref = w.certificate_ref;
    }

    -- `UpsertIssued` for the domains
    unfoldable pub store_asset : List String → Act d (Asset × Version × Bool)
    store_asset domain_ids = on_assets d (λ now fresh fresh' s.
        upsert_issued d.lower s scope (issue_input domain_ids) now fresh fresh')

    unfoldable pub complete_issued : Handling d Unit
    unfolding store_asset link_all complete_from
    complete_issued = do
      refs ←
          or_leave (λ e. retry "REQUEST_DOMAIN_LOOKUP_FAILED" (describe e))
            (asking d (λ s. Commands.list_domains s.requests scope r.id))
      let domain_ids = map (λ (ref : DomainRef). ref.domain_id) refs
      stored ← outcome (store_asset domain_ids)
      issued ← tried "ASSET_PERSIST_FAILED" stored
      link_all issued.0 domain_ids
      or_fail d "REQUEST_STATE_INVALID" (ensure_request_completed d scope r)
      pure tt

  -- `continueFinalizing`. The adapter calls go on with the workflow as it was moved.
  unfoldable pub continue_finalizing : Scope → Request → Workflow → Handling d Unit
  unfolding calling update_workflow ensure_continue_job finalizing_from
  continue_finalizing scope r w = do
    at ← finalizing_from scope r w w.status
    calling d scope r at "ACME_FINALIZE_FAILED" (d.finalize_order at.order_url)
    certificate ← calling d scope r at "ACME_DOWNLOAD_FAILED" (d.download_certificate at.order_url)
    issued ←
        or_fail d "WORKFLOW_STATE_FAILED" (update_workflow d scope at.id (mark_issued certificate))
    or_schedule_failure d (ensure_continue_job d r issued issued.status)
    pure tt

  -- `parseContinuePayload`
  unfoldable pub checked_continue : Result String ContinuePayload → Handling d ContinuePayload
  checked_continue (err e) =
      leave (failure "INVALID_JOB_PAYLOAD" ("decode continue workflow payload: " ++ e))
  checked_continue (ok p) =
      if trim_space p.request_id == "" || trim_space p.workflow_id == ""
      then leave (
          failure "INVALID_JOB_PAYLOAD"
            ("request_id and workflow_id required: " ++ describe ResourceError.validation))
      else pure p

  abbrev parsed_continue : Payload → Handling d ContinuePayload
  parsed_continue raw = checked_continue (decode_continue raw)

  -- The `switch` on the status of the workflow.
  unfoldable pub resume_from :
      WorkflowStatus → Scope → Request → Workflow → List Challenge → Handling d Unit
  unfolding continue_pending continue_processing continue_finalizing complete_issued text_of
  resume_from WorkflowStatus.challenge_pending scope r w challenges =
      continue_pending d scope r w challenges
  resume_from WorkflowStatus.challenge_processing scope r w challenges =
      continue_processing d scope r w challenges
  resume_from WorkflowStatus.challenge_valid scope r w challenges = continue_finalizing scope r w
  resume_from WorkflowStatus.finalizing scope r w challenges = continue_finalizing scope r w
  resume_from WorkflowStatus.issued scope r w challenges = complete_issued scope r w
  resume_from WorkflowStatus.failed scope r w challenges = leave done
  resume_from WorkflowStatus.cancelled scope r w challenges = leave done
  resume_from _ scope r w challenges = leave (
      failure "WORKFLOW_STATUS_UNSUPPORTED"
        ("unsupported workflow status " ++ quoted (text_of w.status)))

  unfoldable pub process_continue : Job → Handling d Unit
  unfolding checked_continue resume_from
  process_continue j = do
    let scope = job_scope j
    p ← parsed_continue j.payload
    r ← or_fail d "REQUEST_NOT_FOUND" (asking d (λ s. Commands.get s.requests scope p.request_id))
    w ← or_fail d "WORKFLOW_NOT_FOUND" (asking d (λ s. State.get s.flows scope p.workflow_id))
    challenges ←
        or_fail d "WORKFLOW_CHALLENGE_LOOKUP_FAILED"
          (asking d (λ s. list_challenges s.flows scope w.id))
    resume_from w.status scope r w challenges
