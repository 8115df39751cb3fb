-- ===== src/CertificateRequest/Input.antt =====
-- internal/domain/certificaterequest/service.go: `normalizeCreateInput`.
use Prim.Native.Char.{Char}
use auto_cert_x.Prelude.{
  ℕ, ◌+◌, String, Bool, false, not, ◌&&◌, ◌||◌, List, [], ◌∷◌, length, ok, ◌>>=◌, ◌>>◌, reject_if,
  eqb, ◌==◌, if◌then◌else◌,
}
use auto_cert_x.Prelude.Int.{pos, is_nonpos}
use auto_cert_x.Text.{trim_space, lowered}
use auto_cert_x.Resource.Errors.{Answer, validation, conflict}
use auto_cert_x.CertificateRequest.State.{DomainRef, CreateInput}

-- an empty text takes the default
abbrev pub or_default : String → String → String
or_default s default = if s == "" then default else s

-- the key is one of those seen before
abbrev pub member : String → List String → Bool
member key [] = false
member key (seen ∷ others) = seen == key || member key others

abbrev pub is_relation : String → Bool
is_relation s = s == "primary" || s == "san" || s == "wildcard"

abbrev pub is_wildcard : String → Bool
is_wildcard s = s == "wildcard"

-- The first domain is the primary one where nothing is said.
abbrev pub relation_of : (Char → Char) → ℕ → DomainRef → String
relation_of lower index ref =
    or_default (lowered lower ref.relation_type) (if eqb index 0 then "primary" else "san")

abbrev pub normal_ref : (Char → Char) → ℕ → DomainRef → DomainRef
normal_ref lower index ref = record {
  domain_id = trim_space ref.domain_id;
  relation_type = relation_of lower index ref;
  sort_order = if is_nonpos ref.sort_order then pos (index + 1) else ref.sort_order;
  domain_name = lowered lower ref.domain_name;
  allow_wildcard = ref.allow_wildcard;
}

-- The loop over the domains, from `index` on, past the ids that were seen: the domains, and whether
-- one of them is a wildcard.
unfoldable pub normal_refs :
    (Char → Char) → ℕ → List String → List DomainRef → Answer (List DomainRef × Bool)
normal_refs lower index seen [] = ok ([], false)
normal_refs lower index seen (ref ∷ later) =
    let next = normal_ref lower index ref in
    let rest = normal_refs lower (index + 1) (next.domain_id ∷ seen) later in
    do
      reject_if (next.domain_id == "") validation
      reject_if (member next.domain_id seen) conflict
      reject_if (not (is_relation next.relation_type)) validation
      found ← rest
      ok (next ∷ found.0, is_wildcard next.relation_type || found.1)

-- The normalized input with its domains; its idempotency key is a field of it.
unfoldable pub normal_input : (Char → Char) → CreateInput → Answer (CreateInput × List DomainRef)
unfolding normal_refs
normal_input lower input = do
  let request_type = or_default (lowered lower input.request_type) "issue"
  reject_if (not (request_type == "issue") && not (request_type == "renew")) validation
  let request_source = or_default (lowered lower input.request_source) "manual"
  reject_if (not (request_source == "manual") && not (request_source == "scheduled")) validation
  let certificate_type = lowered lower input.certificate_type
  reject_if
      (not (
        certificate_type == "single"
        || certificate_type == "san"
        || certificate_type == "wildcard"))
      validation
  let challenge_type = lowered lower input.challenge_type
  reject_if (not (challenge_type == "http-01" || challenge_type == "dns-01")) validation
  let common_name = lowered lower input.common_name
  reject_if (common_name == "") validation
  let ca_account_id = trim_space input.ca_account_id
  reject_if (ca_account_id == "") validation
  let idempotency_key = trim_space input.idempotency_key
  reject_if (idempotency_key == "") validation
  reject_if (request_type == "renew" && trim_space input.asset_id == "") validation
  found ← normal_refs lower 0 [] input.domains
  reject_if (eqb (length found.0) 0) validation
  reject_if (certificate_type == "single" && not (eqb (length found.0) 1)) validation
  reject_if (certificate_type == "wildcard" && not found.1) validation
  reject_if (found.1 && not (challenge_type == "dns-01")) validation
  ok (
    record {
      request_type = request_type;
      request_source = request_source;
      asset_id = trim_space input.asset_id;
      ca_account_id = ca_account_id;
      certificate_type = certificate_type;
      challenge_type = challenge_type;
      common_name = common_name;
      requested_by = trim_space input.requested_by;
      idempotency_key = idempotency_key;
      reason = trim_space input.reason;
      domains = [];
    },
    found.0,
  )
