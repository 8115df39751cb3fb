-- ===== src/Tests/Assets.antt =====
-- The theorems on certificate assets, at an asset with one version.
use Prim.Native.Char.{Char}
use auto_cert_x.Prelude.{◌≡◌, refl, Bool, false, [], ◌∷◌, ok}
use auto_cert_x.Text.{trim_space, to_lower}
use auto_cert_x.Dict.{lookup, lookup_list, insert}
use auto_cert_x.Resource.Scope.{Scope}
use auto_cert_x.CertificateAsset.State.{Asset, Version, IssueInput, Assets}
use auto_cert_x.CertificateAsset.Commands.{upsert_issued}
use auto_cert_x.CertificateAsset.History.{IsHistory}
use auto_cert_x.CertificateAsset.Reissue.{reissue_idempotent}
use auto_cert_x.CertificateAsset.Reachable.{
  Reachable, start, next, issuing, no_assets, Reachable-IsAssets, versions_numbered,
}

abbrev here : Scope
here = record { tenant_id = "t"; project_id = "p"; environment_id = "e" }

abbrev as_is : Char → Char
as_is c = c

abbrev issued_input : IssueInput
issued_input = record {
  asset_id = "";
  name = "example.org";
  ca_account_id = "ca";
  certificate_type = "single";
  challenge_type = "http-01";
  common_name = "example.org";
  domain_ids = "d" ∷ " d " ∷ [];
  certificate_request_id = "r";
  issue_workflow_id = "w";
  certificate_ref = "certificate";
}

unfoldable one_asset : Assets
unfolding upsert_issued trim_space to_lower lookup lookup_list insert
one_asset = (upsert_issued as_is no_assets here issued_input 1 "a" "v").1

one_asset_made :
    (r : Asset × Version × Bool) × (upsert_issued as_is no_assets here issued_input 1 "a" "v"
      ≡ (ok r, one_asset))
    × (r.1.version_no ≡ 1)
    × (r.0.domain_ids ≡ "d" ∷ [])
unfolding one_asset
one_asset_made = (_, refl, refl, refl)

one_asset-Reachable : Reachable as_is one_asset
unfolding one_asset
one_asset-Reachable = next start (issuing here issued_input 1 "a" "v" refl)

versions_numbered_example : IsHistory (lookup_list "a" one_asset.versions)
versions_numbered_example = versions_numbered as_is one_asset "a" one_asset-Reachable

reissue_idempotent_example : upsert_issued as_is one_asset here issued_input 2 "b" "u" ≡ (
  ok (record one_asset_made.0.0 { updated_at = 2 }, one_asset_made.0.1, false),
  record one_asset {
    by_id =
        insert one_asset_made.0.0.id (record one_asset_made.0.0 { updated_at = 2 }) one_asset.by_id;
  },
)
reissue_idempotent_example =
    reissue_idempotent as_is no_assets one_asset here issued_input 1 2 "a" "v" "b" "u"
      (Reachable-IsAssets as_is no_assets start) one_asset_made.1
