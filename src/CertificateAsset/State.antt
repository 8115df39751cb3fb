-- ===== src/CertificateAsset/State.antt =====
-- internal/domain/certificateasset/service.go: assets, versions and the maps of the service. The
-- statuses are the constants; `unset` is the zero value.
use auto_cert_x.Prelude.{ℕ, String, List, []}
use auto_cert_x.Dict.{Dict}
use auto_cert_x.Job.Clock.{Time}
use auto_cert_x.Resource.Scope.{Scope}

pub data AssetStatus : Type 0 where
  active expiring renewing deploy_failed expired revoked orphaned unset : AssetStatus

pub record Asset : Type 0 where
  pub id : String
  pub scope : Scope
  pub name : String
  pub status : AssetStatus
  pub ca_account_id : String
  pub certificate_type : String
  pub challenge_type : String
  pub common_name : String
  pub domain_ids : List String
  pub current_version_id : String
  pub created_at : Time
  pub updated_at : Time

-- `Asset{}`
abbrev pub zero_asset : Asset
zero_asset = record {
  id = "";
  scope = record { tenant_id = ""; project_id = ""; environment_id = "" };
  name = "";
  status = unset;
  ca_account_id = "";
  certificate_type = "";
  challenge_type = "";
  common_name = "";
  domain_ids = [];
  current_version_id = "";
  created_at = 0;
  updated_at = 0;
}

-- Every version has the status `issued`.
pub record Version : Type 0 where
  pub id : String
  pub asset_id : String
  pub version_no : ℕ
  pub status : String
  pub certificate_request_id : String
  pub issue_workflow_id : String
  pub certificate_ref : String
  pub created_at : Time
  pub updated_at : Time

pub record IssueInput : Type 0 where
  pub asset_id : String
  pub name : String
  pub ca_account_id : String
  pub certificate_type : String
  pub challenge_type : String
  pub common_name : String
  pub domain_ids : List String
  pub certificate_request_id : String
  pub issue_workflow_id : String
  pub certificate_ref : String

pub record Assets : Type 0 where
  pub by_id : Dict Asset
  pub by_name : Dict String
  pub versions : Dict (List Version)
