-- ===== src/Domains/Commands.antt =====
-- internal/domain/domains/service.go: the methods.
use Prim.Native.Char.{Char}
use auto_cert_x.Prelude.{
  String, Bool, true, false, not, ◌&&◌, Option, none, some, List, [], ◌∷◌, ok, ◌>>=◌, ◌>>◌,
  reject_if, ◌==◌, if◌then◌else◌,
}
use auto_cert_x.Text.{trim_space, lowered, has_prefix, trim_dot}
use auto_cert_x.Dict.{Dict, lookup, insert, remove, lookup_list}
use auto_cert_x.Job.Clock.{Time}
use auto_cert_x.Resource.Errors.{Answer, validation, conflict}
use auto_cert_x.Resource.Scope.{Scope, validate}
use auto_cert_x.Resource.Stores.{commit, find, listed, scoped_key}
use auto_cert_x.Domains.State.{Domain, CertificateAssetRef, UpsertInput, Governed}

abbrev pub scope_of : Domain → Scope
scope_of d = d.scope

unfoldable pub list : Governed → Scope → Answer (List Domain)
unfolding validate listed
list s scope = do validate scope; ok (listed scope_of (λ d. d.name) s.by_id scope)

unfoldable pub get : Governed → Scope → String → Answer Domain
unfolding validate find
get s scope id = do
  validate scope
  reject_if (trim_space id == "") validation
  find scope_of s.by_id scope id

-- `normalizeDomain`
abbrev pub normal_name : (Char → Char) → String → String
normal_name lower name = trim_dot (lowered lower name)

-- `validateInput`: the name; its type and the flag for a wildcard follow from it.
unfoldable pub validated : (Char → Char) → UpsertInput → Answer String
validated lower input = do
  let name = normal_name lower input.name
  reject_if (name == "") validation
  let challenge_type = lowered lower input.challenge_type
  reject_if (not (challenge_type == "http-01") && not (challenge_type == "dns-01")) validation
  reject_if (has_prefix "*." name && not (challenge_type == "dns-01")) validation
  ok name

abbrev pub domain_type_of : String → String
domain_type_of name = if has_prefix "*." name then "wildcard_root" else "single"

abbrev taken : Option String → Bool
taken none = false
taken (some id) = true

unfoldable pub create :
    (Char → Char) → Governed → Scope → UpsertInput → Time → String → Answer Domain × Governed
unfolding validate validated
create lower s scope input now fresh = commit s (do
  validate scope
  name ← validated lower input
  reject_if (taken (lookup (scoped_key scope name) s.by_name)) conflict
  let d : Domain = record {
    id = fresh;
    scope = scope;
    name = name;
    domain_type = domain_type_of name;
    default_challenge_type = lowered lower input.challenge_type;
    default_dns_provider = lowered lower input.dns_provider;
    dns_credential_id = trim_space input.dns_credential_id;
    allow_wildcard = has_prefix "*." name;
    auto_renew = input.auto_renew;
    status = "active";
    last_validation_status = "";
    last_validated_at = none;
    created_at = now;
    updated_at = now;
  }
  ok (
    d,
    record s {
      by_id = insert fresh d s.by_id;
      by_name = insert (scoped_key scope name) fresh s.by_name;
    },
  ))

abbrev pub taken_by_other : String → Option String → Bool
taken_by_other id none = false
taken_by_other id (some other) = not (other == id)

-- The index after a domain takes a new name: the old entry goes where the key changes.
unfoldable pub renamed : Governed → Domain → String → Answer (Dict String)
renamed s d name =
    let old_key = scoped_key d.scope d.name in
    let new_key = scoped_key d.scope name in
    if new_key == old_key then ok s.by_name else (do
      reject_if (taken_by_other d.id (lookup new_key s.by_name)) conflict
      ok (insert new_key d.id (remove old_key s.by_name)))

unfoldable pub update :
    (Char → Char) → Governed → Scope → String → UpsertInput → Time → Answer Domain × Governed
unfolding validate validated find renamed
update lower s scope id input now = commit s (do
  validate scope
  name ← validated lower input
  d ← find scope_of s.by_id scope id
  names ← renamed s d name
  let changed = record d {
    name = name;
    domain_type = domain_type_of name;
    default_challenge_type = lowered lower input.challenge_type;
    dns_credential_id = trim_space input.dns_credential_id;
    default_dns_provider = lowered lower input.dns_provider;
    allow_wildcard = has_prefix "*." name;
    auto_renew = input.auto_renew;
    updated_at = now;
  }
  ok (changed, record s { by_id = insert d.id changed s.by_id; by_name = names }))

-- `BindDNSCredential`; it does not validate the scope.
unfoldable pub bind_dns_credential :
    (Char → Char) → Governed → Scope → String → String → String → Time → Answer Domain × Governed
unfolding find
bind_dns_credential lower s scope id credential_id provider now = commit s (do
  d ← find scope_of s.by_id scope id
  reject_if (trim_space credential_id == "") validation
  let bound = record d {
    dns_credential_id = trim_space credential_id;
    default_dns_provider = lowered lower provider;
    updated_at = now;
  }
  ok (bound, record s { by_id = insert d.id bound s.by_id }))

unfoldable pub list_certificate_assets :
    Governed → Scope → String → Answer (List CertificateAssetRef)
unfolding get
list_certificate_assets s scope id = do d ← get s scope id; ok (lookup_list id s.certificates)

-- The stored form of a reference.
abbrev trimmed : CertificateAssetRef → CertificateAssetRef
trimmed ref = record ref {
  id = trim_space ref.id;
  name = trim_space ref.name;
  status = trim_space ref.status;
}

-- The first entry with the id is replaced; without one the reference goes to the end.
unfoldable pub linked : CertificateAssetRef → List CertificateAssetRef → List CertificateAssetRef
linked ref [] = trimmed ref ∷ []
linked ref (entry ∷ others) =
    let rest = linked ref others in
    if entry.id == ref.id then trimmed ref ∷ others else entry ∷ rest

unfoldable pub link_certificate_asset :
    Governed → Scope → String → CertificateAssetRef → Answer Unit × Governed
unfolding get linked
link_certificate_asset s scope id ref = commit s (do
  d ← get s scope id
  reject_if (trim_space ref.id == "") validation
  reject_if (trim_space ref.name == "") validation
  ok (
    tt,
    record s {
      certificates = insert id (linked ref (lookup_list id s.certificates)) s.certificates;
    },
  ))
