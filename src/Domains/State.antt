-- ===== src/Domains/State.antt =====
-- internal/domain/domains/service.go: domains and the maps of the service. No method writes the
-- histories of validations and of TXT records.
use auto_cert_x.Prelude.{String, Bool, Option, List}
use auto_cert_x.Dict.{Dict}
use auto_cert_x.Job.Clock.{Time}
use auto_cert_x.Resource.Scope.{Scope}

-- `DomainName` is the field `name`.
pub record Domain : Type 0 where
  pub id : String
  pub scope : Scope
  pub name : String
  pub domain_type : String
  pub default_challenge_type : String
  pub default_dns_provider : String
  pub dns_credential_id : String
  pub allow_wildcard : Bool
  pub auto_renew : Bool
  pub status : String
  pub last_validation_status : String
  pub last_validated_at : Option Time
  pub created_at : Time
  pub updated_at : Time

pub record CertificateAssetRef : Type 0 where
  pub id : String
  pub name : String
  pub status : String
  pub expires_at : Option Time

pub record UpsertInput : Type 0 where
  pub name : String
  pub challenge_type : String
  pub auto_renew : Bool
  pub dns_credential_id : String
  pub dns_provider : String

pub record Governed : Type 0 where
  pub by_id : Dict Domain
  pub by_name : Dict String
  pub certificates : Dict (List CertificateAssetRef)
