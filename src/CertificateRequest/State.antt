-- ===== src/CertificateRequest/State.antt =====
-- internal/domain/certificaterequest/service.go: requests and the maps of the service.
use auto_cert_x.Prelude.{String, Bool, Option, List}
use auto_cert_x.Prelude.Int.{ℤ}
use auto_cert_x.Dict.{Dict}
use auto_cert_x.Job.Clock.{Time}
use auto_cert_x.Resource.Scope.{Scope}
use auto_cert_x.CertificateRequest.Status.{RequestStatus}

pub record DomainRef : Type 0 where
  pub domain_id : String
  pub relation_type : String
  pub sort_order : ℤ
  pub domain_name : String
  pub allow_wildcard : Bool

pub record Request : Type 0 where
  pub id : String
  pub scope : Scope
  pub request_type : String
  pub request_source : String
  pub asset_id : String
  pub ca_account_id : String
  pub algorithm : String
  pub certificate_type : String
  pub challenge_type : String
  pub common_name : String
  pub status : RequestStatus
  pub requested_by : String
  pub idempotency_key : String
  pub reason : String
  pub submitted_at : Option Time
  pub created_at : Time
  pub updated_at : Time

pub record CreateInput : Type 0 where
  pub request_type : String
  pub request_source : String
  pub asset_id : String
  pub ca_account_id : String
  pub certificate_type : String
  pub challenge_type : String
  pub common_name : String
  pub requested_by : String
  pub idempotency_key : String
  pub reason : String
  pub domains : List DomainRef

-- The service: the requests, the index by idempotency key, and the domains of a request.
pub record Requests : Type 0 where
  pub by_id : Dict Request
  pub by_idempotency : Dict String
  pub domains : Dict (List DomainRef)
