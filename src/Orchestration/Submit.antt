-- ===== src/Orchestration/Submit.antt =====
-- internal/workflow/service.go: `SubmitRequest` and `RenewAsset`; `ProcessJob`; and
-- internal/workflow/executor.go.
use Prim.Native.String.{◌++◌}
use auto_cert_x.Prelude.{
  ℕ, ◌+◌, String, Bool, false, not, ◌&&◌, ◌||◌, Option, none, some, List, [], ◌∷◌, length, Result,
  ok, err, eqb, ◌==◌, if◌then◌else◌,
}
use auto_cert_x.Prelude.Int.{pos}
use auto_cert_x.Prelude.Exec.{Exec, pure, leave, ◌>>=◌, ◌>>◌, or_leave, outcome}
use auto_cert_x.Text.{trim_space, lowered, has_prefix}
use auto_cert_x.Job.Errors.{Error}
use auto_cert_x.Job.AttemptStatus
use auto_cert_x.Job.Record.{Job}
use auto_cert_x.Resource.Errors.{ResourceError, validation, unavailable}
use auto_cert_x.Resource.Scope.{Scope, validate}
use auto_cert_x.CertificateRequest.State.{DomainRef, CreateInput, Request}
use auto_cert_x.CertificateRequest.Commands
use auto_cert_x.CertificateAsset.Commands as Assets
use auto_cert_x.Domains.State.{Domain}
use auto_cert_x.Domains.Commands as Governed
use auto_cert_x.Issuer
use auto_cert_x.JobStore.Params.{ClaimedJob}
use auto_cert_x.Scheduler.Worker.{ExecutionResult}
use auto_cert_x.Orchestration.Drivers.{Drivers}
use auto_cert_x.Orchestration.World.{World, asking, reading_clock, on_requests}
use auto_cert_x.Orchestration.Steps.{
  ProcessResult, done, failure, Act, Handling, start_job_type, continue_job_type, ensure_start_job,
  ensure_request_accepted, accept_from,
}
use auto_cert_x.Orchestration.Start.{process_start}
use auto_cert_x.Orchestration.Continue.{process_continue}

pub record SubmitInput : Type 0 where
  pub request_type : String
  pub domain_ids : List String
  pub ca_account_id : String
  pub asset_id : String
  pub certificate_type : String
  pub challenge_type : String
  pub idempotency_key : String

pub record AcceptedResult : Type 0 where
  pub request_id : String
  pub job_id : String

-- an error of a service or of the job service
pub data SubmitError : Type 0 where
  of_service : ResourceError → SubmitError
  of_jobs : Error → SubmitError

abbrev covers_wildcard : Domain → Bool
covers_wildcard a = a.allow_wildcard || has_prefix "*." a.name

abbrev pub domain_ref : ℕ → Domain → DomainRef
domain_ref index a = record {
  domain_id = a.id;
  relation_type =
      if covers_wildcard a then "wildcard" else if eqb index 0 then "primary" else "san";
  sort_order = pos (index + 1);
  domain_name = a.name;
  allow_wildcard = a.allow_wildcard;
}

abbrev pub or_else : String → String → String
or_else s default = if s == "" then default else s

abbrev certificate_type_of : Bool → ℕ → String
certificate_type_of has_wildcard count =
    if has_wildcard then "wildcard" else if eqb count 1 then "single" else "san"

-- Some domain, and the first of them.
abbrev pub first_of : List Domain → Option Domain
first_of [] = none
first_of (a ∷ later) = some a

abbrev any_wildcard : List Domain → Bool
any_wildcard [] = false
any_wildcard (a ∷ later) = covers_wildcard a || any_wildcard later

abbrev pub domain_refs : ℕ → List Domain → List DomainRef
domain_refs index [] = []
domain_refs index (a ∷ later) = domain_ref index a ∷ domain_refs (index + 1) later

module _ (d : Drivers) where
  open d use {Env, lower, format_time}

  unfoldable pub resolve_domains : Scope → List String → Act d (List Domain)
  resolve_domains scope [] = pure []
  resolve_domains scope (id ∷ later) = do
    a ← asking d (λ s. Governed.get s.domains scope id)
    others ← resolve_domains scope later
    pure (a ∷ others)

  abbrev request_input : String → SubmitInput → String → Domain → List Domain → CreateInput
  request_input actor_id input account_id first resolved = record {
    request_type = or_else (lowered lower input.request_type) "issue";
    request_source = "manual";
    asset_id = trim_space input.asset_id;
    ca_account_id = account_id;
    certificate_type =
        or_else (lowered lower input.certificate_type)
          (certificate_type_of (any_wildcard resolved) (length resolved));
    challenge_type = or_else (lowered lower input.challenge_type) first.default_challenge_type;
    common_name = first.name;
    requested_by = trim_space actor_id;
    idempotency_key = trim_space input.idempotency_key;
    reason = "";
    domains = domain_refs 0 resolved;
  }

  -- `prepareRequestInput`
  unfoldable pub prepare_request_input : Scope → String → SubmitInput → Act d CreateInput
  unfolding resolve_domains
  prepare_request_input scope actor_id input =
      if trim_space input.ca_account_id == "" then leave validation else (do
        account ← asking d (λ s. Issuer.get s.issuers scope input.ca_account_id)
        if not (account.status == "active") then leave unavailable else (do
          resolved ← resolve_domains scope input.domain_ids
          elim (first_of resolved) [
            | none ↦ leave validation
            | some first ↦ pure (request_input actor_id input account.id first resolved)
          ]))

  abbrev accepted : Request → Job → AcceptedResult
  accepted r j = record { request_id = r.id; job_id = j.id }

  -- The request that was created gets its start job and is accepted; where the key is taken, the
  -- request that has it gets its start job.
  unfoldable pub started :
      Scope → String → Result ResourceError Request → Exec (World Env) SubmitError AcceptedResult
  unfolding ensure_start_job accept_from
  started scope key (ok r) = do
    j ← or_leave SubmitError.of_jobs (ensure_start_job d r)
    or_leave SubmitError.of_service (ensure_request_accepted d scope r)
    pure (accepted r j)
  started scope key (err ResourceError.conflict) = do
    r ←
        or_leave SubmitError.of_service
          (asking d (λ s. Commands.get_by_idempotency s.requests scope key))
    j ← or_leave SubmitError.of_jobs (ensure_start_job d r)
    pure (accepted r j)
  started scope key (err e) = leave (SubmitError.of_service e)

  unfoldable pub create_request : Scope → CreateInput → Act d Request
  create_request scope input =
      on_requests d (λ now fresh s. Commands.create lower s scope input now fresh)

  -- `SubmitRequest`
  unfoldable pub submit_request :
      Scope → String → SubmitInput → Exec (World Env) SubmitError AcceptedResult
  unfolding prepare_request_input started create_request
  submit_request scope actor_id input = do
    or_leave SubmitError.of_service (asking d (λ s. validate scope))
    create_input ← or_leave SubmitError.of_service (prepare_request_input scope actor_id input)
    created ← outcome (create_request scope create_input)
    started scope input.idempotency_key created

  -- `RenewAsset`; the key holds the instant.
  unfoldable pub renew_asset : Scope → String → String → Exec (World Env) SubmitError AcceptedResult
  unfolding submit_request
  renew_asset scope actor_id asset_id = do
    asset ←
        or_leave SubmitError.of_service
          (asking d (λ s. Assets.get s.assets scope (trim_space asset_id)))
    now ← reading_clock d
    submit_request scope actor_id (record {
      request_type = "renew";
      domain_ids = asset.domain_ids;
      ca_account_id = asset.ca_account_id;
      asset_id = asset.id;
      certificate_type = asset.certificate_type;
      challenge_type = asset.challenge_type;
      idempotency_key = "renew:" ++ (asset.id ++ (":" ++ format_time now));
    })

  -- `ProcessJob` up to the result that it leaves with; at its end the result is `done`.
  unfoldable pub handle : Job → Handling d Unit
  unfolding process_start process_continue
  handle j =
      if j.job_type == start_job_type
      then process_start d j
      else if j.job_type == continue_job_type
      then process_continue d j
      else leave
          (failure "UNSUPPORTED_JOB_TYPE" ("unsupported workflow job type " ++ d.quoted j.job_type))

  abbrev result_of : Result ProcessResult Unit → ProcessResult
  result_of (ok _) = done
  result_of (err result) = result

  unfoldable pub process_job : Job → World Env → ProcessResult × World Env
  unfolding handle
  process_job j s = let (r, t) = handle j s in (result_of r, t)

  -- `Executor.Execute`: a result that is to be retried is a failed attempt.
  unfoldable pub execution_result : ProcessResult → ExecutionResult
  execution_result p =
      if not (p.error_code == "") && not p.retryable
      then record {
        result_status = AttemptStatus.failed;
        retryable = false;
        retry_delay = pos 0;
        error_code = p.error_code;
        error_message = p.error_message;
        evidence_ref = "";
      }
      else record {
        result_status = if p.retryable then AttemptStatus.failed else AttemptStatus.succeeded;
        retryable = p.retryable;
        retry_delay = p.retry_delay;
        error_code = p.error_code;
        error_message = p.error_message;
        evidence_ref = "";
      }

  unfoldable pub execute : ClaimedJob → World Env → ExecutionResult × World Env
  unfolding process_job execution_result
  execute claim s = let (p, t) = process_job claim.job s in (execution_result p, t)
