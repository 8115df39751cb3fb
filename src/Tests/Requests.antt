-- ===== src/Tests/Requests.antt =====
-- The theorems on certificate requests, at a request for a wildcard certificate.
use Prim.Native.Char.{Char}
use auto_cert_x.Prelude.{◌≡◌, refl, true, List, [], ◌∷◌, ok, err}
use auto_cert_x.Prelude.Int.{pos}
use auto_cert_x.Text.{trim_space, to_lower}
use auto_cert_x.Dict.{lookup, insert}
use auto_cert_x.Resource.Errors.{conflict}
use auto_cert_x.Resource.Scope.{Scope}
use auto_cert_x.CertificateRequest.State.{DomainRef, CreateInput, Request, Requests}
use auto_cert_x.CertificateRequest.Commands.{create, get_by_idempotency}
use auto_cert_x.CertificateRequest.Once.{request_once}
use auto_cert_x.CertificateRequest.Input.{normal_input}
use auto_cert_x.CertificateRequest.Normal.{IsNormal, normal_input-IsNormal}

abbrev as_is : Char → Char
as_is c = c

abbrev wildcard_input : CreateInput
wildcard_input = record {
  request_type = "";
  request_source = "";
  asset_id = "";
  ca_account_id = " ca ";
  certificate_type = "wildcard";
  challenge_type = "dns-01";
  common_name = "*.example.org";
  requested_by = "user";
  idempotency_key = " key ";
  reason = "";
  domains =
      record {
        domain_id = "d";
        relation_type = "wildcard";
        sort_order = pos 0;
        domain_name = "*.example.org";
        allow_wildcard = true;
      }
      ∷ [];
}

normalized :
    (n : CreateInput × List DomainRef) × (normal_input as_is wildcard_input ≡ ok n)
    × (n.0.idempotency_key ≡ "key")
    × (n.0.request_type ≡ "issue")
unfolding normal_input to_lower trim_space
normalized = (_, refl, refl, refl)

normal_input-IsNormal_example : IsNormal normalized.0.0 normalized.0.1
normal_input-IsNormal_example = normal_input-IsNormal as_is wildcard_input normalized.1

abbrev here : Scope
here = record { tenant_id = "t"; project_id = "p"; environment_id = "e" }

abbrev no_requests : Requests
no_requests = record { by_id = []; by_idempotency = []; domains = [] }

unfoldable one_request : Requests
unfolding create to_lower trim_space lookup insert
one_request = (create as_is no_requests here wildcard_input 1 "r").1

one_request_made :
    (r : Request) × (create as_is no_requests here wildcard_input 1 "r" ≡ (ok r, one_request))
unfolding one_request
one_request_made = (_, refl)

request_once_example :
    (get_by_idempotency one_request here " key " ≡ ok one_request_made.0)
    × (create as_is one_request here wildcard_input 2 "x" ≡ (err conflict, one_request))
request_once_example =
    request_once as_is no_requests one_request here wildcard_input 1 2 "r" "x" one_request_made.1
