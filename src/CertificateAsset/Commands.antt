-- ===== src/CertificateAsset/Commands.antt =====
-- internal/domain/certificateasset/service.go: the methods.
use Prim.Native.Char.{Char}
use auto_cert_x.Prelude.{
  ◌+◌, String, Bool, true, false, not, ◌&&◌, ◌||◌, Option, none, some, List, [], ◌∷◌, ◌++◌, length,
  ok, ◌>>=◌, ◌>>◌, reject_if, ◌==◌, if◌then◌else◌,
}
use auto_cert_x.Text.{trim_space, lowered}
use auto_cert_x.Dict.{Dict, lookup, insert, lookup_list}
use auto_cert_x.Job.Clock.{Time, is_zero}
use auto_cert_x.Resource.Errors.{Answer, validation}
use auto_cert_x.Resource.Scope.{Scope, validate}
use auto_cert_x.Resource.Stores.{commit, find, listed, scoped_key}
use auto_cert_x.CertificateAsset.State.{
  AssetStatus, active, deploy_failed, Asset, zero_asset, Version, IssueInput, Assets,
}

abbrev pub scope_of : Asset → Scope
scope_of a = a.scope

unfoldable pub list : Assets → Scope → Answer (List Asset)
unfolding validate listed
list s scope = do validate scope; ok (listed scope_of (λ a. a.name) s.by_id scope)

unfoldable pub get : Assets → Scope → String → Answer Asset
unfolding validate find
get s scope id = do
  validate scope
  reject_if (trim_space id == "") validation
  find scope_of s.by_id scope id

unfoldable pub list_versions : Assets → Scope → String → Answer (List Version)
unfolding get
list_versions s scope id = do a ← get s scope id; ok (lookup_list id s.versions)

-- `updateStatus`, for `MarkActive` and `MarkDeployFailed`
unfoldable pub update_status : Assets → Scope → String → AssetStatus → Time → Answer Asset × Assets
unfolding validate find
update_status s scope id next now = commit s (do
  validate scope
  reject_if (trim_space id == "") validation
  a ← find scope_of s.by_id scope id
  let changed = record a { status = next; updated_at = now }
  ok (changed, record s { by_id = insert a.id changed s.by_id }))

abbrev pub mark_active : Assets → Scope → String → Time → Answer Asset × Assets
mark_active s scope id now = update_status s scope id active now

abbrev pub mark_deploy_failed : Assets → Scope → String → Time → Answer Asset × Assets
mark_deploy_failed s scope id now = update_status s scope id deploy_failed now

abbrev pub among : String → List String → Bool
among key [] = false
among key (seen ∷ others) = seen == key || among key others

-- The ids of the domains, trimmed, each once, past those that were seen.
unfoldable pub distinct_ids : List String → List String → Answer (List String)
distinct_ids seen [] = ok []
distinct_ids seen (given ∷ later) =
    let id = trim_space given in
    let rest = distinct_ids (if among id seen then seen else id ∷ seen) later in
    do
      reject_if (id == "") validation
      others ← rest
      ok (if among id seen then others else id ∷ others)

abbrev pub is_empty : {A : Type 0} → List A → Bool
is_empty [] = true
is_empty (x ∷ xs) = false

-- `normalizeIssueInput`
unfoldable pub normal_input : (Char → Char) → IssueInput → Answer IssueInput
unfolding distinct_ids
normal_input lower input = do
  reject_if (lowered lower input.name == "") validation
  reject_if (trim_space input.ca_account_id == "") validation
  reject_if (trim_space input.common_name == "") validation
  reject_if (trim_space input.certificate_ref == "") validation
  reject_if (trim_space input.certificate_request_id == "") validation
  reject_if (trim_space input.issue_workflow_id == "") validation
  ids ← distinct_ids [] input.domain_ids
  reject_if (is_empty ids) validation
  ok (record {
    asset_id = trim_space input.asset_id;
    name = lowered lower input.name;
    ca_account_id = trim_space input.ca_account_id;
    certificate_type = lowered lower input.certificate_type;
    challenge_type = lowered lower input.challenge_type;
    common_name = lowered lower input.common_name;
    domain_ids = ids;
    certificate_request_id = trim_space input.certificate_request_id;
    issue_workflow_id = trim_space input.issue_workflow_id;
    certificate_ref = trim_space input.certificate_ref;
  })

-- `s.byID[existingID]`
unfoldable pub stored_asset : Assets → String → Asset
stored_asset s id = elim (lookup id s.by_id) [ none ↦ zero_asset | some a ↦ a ]

-- an asset that is to be written to, whether it is new, and the index with its name
abbrev pub Target : Type 0
Target = Asset × Bool × Dict String

abbrev new_asset : Scope → IssueInput → Time → String → Asset
new_asset scope input now fresh = record {
  id = fresh;
  scope = scope;
  name = input.name;
  status = active;
  ca_account_id = input.ca_account_id;
  certificate_type = input.certificate_type;
  challenge_type = input.challenge_type;
  common_name = input.common_name;
  domain_ids = input.domain_ids;
  current_version_id = "";
  created_at = now;
  updated_at = now;
}

abbrev known : Asset → Dict String → Target
known a names = (a, false, names)

-- The asset that a normalized input names by its id, or by its name in the environment; else a new
-- one.
unfoldable pub target : Assets → Scope → IssueInput → Time → String → Answer Target
unfolding find stored_asset
target s scope input now fresh =
    if not (input.asset_id == "")
    then (do a ← find scope_of s.by_id scope input.asset_id; ok (known a s.by_name))
    else elim (lookup (scoped_key scope input.name) s.by_name) [
      | some id ↦ ok (known (stored_asset s id) s.by_name)
      | none ↦ ok (
        new_asset scope input now fresh,
        true,
        insert (scoped_key scope input.name) fresh s.by_name,
      )
    ]

-- the first version that the workflow issued
unfoldable pub version_of : String → List Version → Option Version
version_of workflow_id [] = none
version_of workflow_id (v ∷ later) =
    if v.issue_workflow_id == workflow_id && not (workflow_id == "")
    then some v
    else version_of workflow_id later

abbrev pub new_version : Asset → IssueInput → List Version → Time → String → Version
new_version a input versions now fresh = record {
  id = fresh;
  asset_id = a.id;
  version_no = length versions + 1;
  status = "issued";
  certificate_request_id = input.certificate_request_id;
  issue_workflow_id = input.issue_workflow_id;
  certificate_ref = input.certificate_ref;
  created_at = now;
  updated_at = now;
}

-- what an asset takes over from the input of a new version
abbrev pub issued_asset : Asset → IssueInput → Version → Time → Asset
issued_asset a input v now = record a {
  status = active;
  ca_account_id = input.ca_account_id;
  certificate_type = input.certificate_type;
  challenge_type = input.challenge_type;
  common_name = input.common_name;
  domain_ids = input.domain_ids;
  current_version_id = v.id;
  created_at = if is_zero a.created_at then now else a.created_at;
  updated_at = now;
}

abbrev pub put : Assets → Asset → Dict String → Dict (List Version) → Assets
put s a names versions = record s {
  by_id = insert a.id a s.by_id;
  by_name = names;
  versions = versions;
}

-- The part of `UpsertIssued` after the asset is chosen.
unfoldable pub issue :
    Assets → IssueInput → Target → Time → String → (Asset × Version × Bool) × Assets
unfolding version_of
issue s input (a, created, names) now fresh =
    let versions = lookup_list a.id s.versions in
    elim (version_of input.issue_workflow_id versions) [
      | some v ↦
          let current = record a { current_version_id = v.id; status = active; updated_at = now } in
          ((current, v, created), put s current names s.versions)
      | none ↦
          let v = new_version a input versions now fresh in
          let current = issued_asset a input v now in
          ((current, v, created), put s current names (insert a.id (versions ++ v ∷ []) s.versions))
    ]

-- `UpsertIssued`; `fresh` is the id of a new asset, `fresh'` that of a new version.
unfoldable pub upsert_issued :
    (Char → Char)
    → Assets
    → Scope
    → IssueInput
    → Time
    → String
    → String
    → Answer (Asset × Version × Bool) × Assets
unfolding validate normal_input target issue
upsert_issued lower s scope input now fresh fresh' = commit s (do
  validate scope
  normal ← normal_input lower input
  chosen ← target s scope normal now fresh
  ok (issue s normal chosen now fresh'))
