-- ===== src/IssueWorkflow/State.antt =====
-- internal/domain/issueworkflow/service.go: workflows, challenges, and the maps of the service. A
-- method holds the mutex throughout and is one step; the clock and the ids are arguments.
use Prim.Native.String.{◌++◌}
use auto_cert_x.Prelude.{
  String, Option, none, some, List, ok, err, ◌>>◌, reject_if, ◌==◌, if◌then◌else◌,
}
use auto_cert_x.Text.{trim_space}
use auto_cert_x.Dict.{Dict, lookup}
use auto_cert_x.Job.Clock.{Time}
use auto_cert_x.Resource.Errors.{Answer, not_found, scope_mismatch, validation}
use auto_cert_x.Resource.Scope.{Scope, validate, equals, environment_key}
use auto_cert_x.IssueWorkflow.Status.{WorkflowStatus, other}
use auto_cert_x.IssueWorkflow.ChallengeStatus.{ChallengeStatus}

pub record Workflow : Type 0 where
  pub id : String
  pub scope : Scope
  pub certificate_request_id : String
  pub ca_account_id : String
  pub workflow_type : String
  pub status : WorkflowStatus
  pub order_url : String
  pub finalize_url : String
  pub csr_ref : String
  pub certificate_ref : String
  pub last_error_code : String
  pub last_error_message : String
  pub started_at : Option Time
  pub finished_at : Option Time
  pub created_at : Time
  pub updated_at : Time

pub record Challenge : Type 0 where
  pub id : String
  pub scope : Scope
  pub issue_workflow_id : String
  pub domain_asset_id : String
  pub challenge_type : String
  pub identifier : String
  pub token : String
  pub key_authorization : String
  pub http_path : String
  pub dns_record_name : String
  pub dns_record_value : String
  pub status : ChallengeStatus
  pub presented_at : Option Time
  pub validated_at : Option Time
  pub cleaned_at : Option Time
  pub created_at : Time
  pub updated_at : Time

pub record CreateInput : Type 0 where
  pub certificate_request_id : String
  pub ca_account_id : String
  pub workflow_type : String

pub record ChallengeInput : Type 0 where
  pub domain_asset_id : String
  pub challenge_type : String
  pub identifier : String
  pub token : String
  pub key_authorization : String
  pub http_path : String
  pub dns_record_name : String
  pub dns_record_value : String

pub record Flows : Type 0 where
  pub by_id : Dict Workflow
  pub by_request : Dict String
  pub challenges : Dict (List Challenge)

-- The workflow under an id, if it lies in the scope.
unfoldable pub scoped : Flows → Scope → String → Answer Workflow
scoped s scope id = elim (lookup id s.by_id) [
  | none ↦ err not_found
  | some w ↦ if equals w.scope scope then ok w else err scope_mismatch
]

unfoldable pub get : Flows → Scope → String → Answer Workflow
unfolding scoped validate
get s scope id = do validate scope; reject_if (trim_space id == "") validation; scoped s scope id

abbrev pub request_key : Scope → String → String
request_key scope request_id = environment_key scope ++ ("/" ++ trim_space request_id)

-- `s.byID[id]` for an id that is not there is the zero workflow, whose strings are empty.
abbrev pub zero_workflow : Workflow
zero_workflow = record {
  id = "";
  scope = record { tenant_id = ""; project_id = ""; environment_id = "" };
  certificate_request_id = "";
  ca_account_id = "";
  workflow_type = "";
  status = other "";
  order_url = "";
  finalize_url = "";
  csr_ref = "";
  certificate_ref = "";
  last_error_code = "";
  last_error_message = "";
  started_at = none;
  finished_at = none;
  created_at = 0;
  updated_at = 0;
}

unfoldable pub stored_workflow : Flows → String → Workflow
stored_workflow s id = elim (lookup id s.by_id) [ none ↦ zero_workflow | some w ↦ w ]

-- `GetByRequest` does not compare the scope of what it finds.
unfoldable pub get_by_request : Flows → Scope → String → Answer Workflow
unfolding validate stored_workflow
get_by_request s scope request_id = do
  validate scope
  elim (lookup (request_key scope request_id) s.by_request) [
    | none ↦ err not_found
    | some id ↦ ok (stored_workflow s id)
  ]
