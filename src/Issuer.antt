-- ===== src/Issuer.antt =====
-- internal/domain/issuer/service.go: the accounts at certificate authorities. Whether a URL and a
-- mail address parse (net/url, net/mail) are parameters of `create`.
use Prim.Native.Char.{Char}
use Prim.Native.String.{◌++◌}
use auto_cert_x.Prelude.{
  String, Bool, true, false, not, Option, none, some, List, [], ◌∷◌, ok, ◌>>=◌, ◌>>◌, reject_if,
  ◌==◌, if◌then◌else◌,
}
use auto_cert_x.Text.{trim_space, to_lower, contains}
use auto_cert_x.Dict.{Dict, lookup, insert}
use auto_cert_x.Job.Clock.{Time}
use auto_cert_x.Resource.Errors.{Answer, validation, conflict}
use auto_cert_x.Resource.Scope.{Scope, validate}
use auto_cert_x.Resource.Stores.{commit, find, listed, scoped_key}

pub record CapabilitySet : Type 0 where
  pub provider_type : String
  pub provider_name : String
  pub directory_url : String
  pub environment : String
  pub supported_certificate_types : List String
  pub supported_challenge_types : List String
  pub wildcard_challenge_types : List String
  pub supports_external_account_key : Bool

-- The source has the statuses active, disabled, error and verifying; only the first is assigned.
pub record Account : Type 0 where
  pub id : String
  pub scope : Scope
  pub provider_type : String
  pub provider_name : String
  pub display_name : String
  pub directory_url : String
  pub email : String
  pub account_kid : String
  pub account_key_secret_ref : String
  pub status : String
  pub capabilities : CapabilitySet
  pub last_checked_at : Option Time
  pub created_at : Time
  pub updated_at : Time

pub record UpsertInput : Type 0 where
  pub display_name : String
  pub directory_url : String
  pub email : String

pub record Issuers : Type 0 where
  pub by_id : Dict Account
  pub by_name : Dict String

abbrev pub scope_of : Account → Scope
scope_of a = a.scope

unfoldable pub list : Issuers → Scope → Answer (List Account)
unfolding validate listed
list s scope = do validate scope; ok (listed scope_of (λ a. a.display_name) s.by_id scope)

unfoldable pub get : Issuers → Scope → String → Answer Account
unfolding validate find
get s scope id = do validate scope; find scope_of s.by_id scope id

unfoldable pub get_capabilities : Issuers → Scope → String → Answer CapabilitySet
unfolding get
get_capabilities s scope id = do a ← get s scope id; ok a.capabilities

unfoldable pub build_capabilities : (Char → Char) → String → CapabilitySet
unfolding contains to_lower trim_space
build_capabilities lower directory_url = record {
  provider_type = "acme";
  provider_name = "letsencrypt";
  directory_url = trim_space directory_url;
  environment =
      if contains "staging" (to_lower lower directory_url) then "staging" else "production";
  supported_certificate_types = "single" ∷ "san" ∷ "wildcard" ∷ [];
  supported_challenge_types = "http-01" ∷ "dns-01" ∷ [];
  wildcard_challenge_types = "dns-01" ∷ [];
  supports_external_account_key = false;
}

-- `validateInput`: `is_url` says that a text parses as an absolute URL with a host, `is_mail` that
-- it parses as an address.
unfoldable pub validated : (String → Bool) → (String → Bool) → UpsertInput → Answer Unit
validated is_url is_mail input = do
  reject_if (trim_space input.display_name == "") validation
  reject_if (not (is_url (trim_space input.directory_url))) validation
  reject_if (not (is_mail (trim_space input.email))) validation
  ok tt

abbrev taken : Option String → Bool
taken none = false
taken (some id) = true

-- `Create` draws the id of the account and one for the reference to its key.
unfoldable pub create :
    (Char → Char)
    → (String → Bool)
    → (String → Bool)
    → Issuers
    → Scope
    → UpsertInput
    → Time
    → String
    → String
    → Answer Account × Issuers
unfolding validate validated build_capabilities
create lower is_url is_mail s scope input now fresh fresh' = commit s (do
  validate scope
  validated is_url is_mail input
  let name = trim_space input.display_name
  reject_if (taken (lookup (scoped_key scope name) s.by_name)) conflict
  let account : Account = record {
    id = fresh;
    scope = scope;
    provider_type = "acme";
    provider_name = "letsencrypt";
    display_name = name;
    directory_url = trim_space input.directory_url;
    email = trim_space input.email;
    account_kid = "";
    account_key_secret_ref = "secret://ca-accounts/" ++ fresh';
    status = "active";
    capabilities = build_capabilities lower input.directory_url;
    last_checked_at = some now;
    created_at = now;
    updated_at = now;
  }
  ok (
    account,
    record {
      by_id = insert fresh account s.by_id;
      by_name = insert (scoped_key scope name) fresh s.by_name;
    },
  ))
