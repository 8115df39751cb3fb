-- ===== src/Domains/Unique.antt =====
-- The domains of internal/domain/domains/service.go as a state machine: every sequence of calls.
use Prim.Native.Char.{Char}
use auto_cert_x.Prelude.{String, ◌≡◌, subst, none, some, []}
use auto_cert_x.Dict.{lookup}
use auto_cert_x.Job.Clock.{Time}
use auto_cert_x.Resource.Scope.{Scope}
use auto_cert_x.Domains.State.{Domain, CertificateAssetRef, UpsertInput, Governed}
use auto_cert_x.Domains.Commands.{create, update, bind_dns_credential, link_certificate_asset}
use auto_cert_x.Domains.Names.{IsConsistent, same_name}
use auto_cert_x.Domains.Preserving.{
  create-IsConsistent, update-IsConsistent, bind_dns_credential-IsConsistent,
  link_certificate_asset-IsConsistent,
}

-- `NewService`
abbrev pub empty : Governed
empty = record { by_id = []; by_name = []; certificates = [] }

-- What one call makes of the state, whether it succeeds or not; the id that `Create` draws is not in
-- use.
pub data Step (lower : Char → Char) (s t : Governed) : Type 0 where
  creating :
      (scope : Scope) (input : UpsertInput) (now : Time) (fresh : String)
      → lookup fresh s.by_id ≡ none
      → (create lower s scope input now fresh).1 ≡ t
      → Step lower s t
  updating :
      (scope : Scope) (id : String) (input : UpsertInput) (now : Time)
      → (update lower s scope id input now).1 ≡ t
      → Step lower s t
  binding :
      (scope : Scope) (id credential_id provider : String) (now : Time)
      → (bind_dns_credential lower s scope id credential_id provider now).1 ≡ t
      → Step lower s t
  linking :
      (scope : Scope) (id : String) (ref : CertificateAssetRef)
      → (link_certificate_asset s scope id ref).1 ≡ t
      → Step lower s t

pub data Reachable (lower : Char → Char) : Governed → Type 0 where
  start : Reachable lower empty
  next : {s t : Governed} → Reachable lower s → Step lower s t → Reachable lower t

empty-IsConsistent : IsConsistent empty
unfolding lookup
empty-IsConsistent = record { indexed = λ k d e. cc; stored = λ key k e. absurd cc }

Step-IsConsistent :
    (lower : Char → Char) (s t : Governed) → Step lower s t → IsConsistent s → IsConsistent t
Step-IsConsistent lower s t (creating scope input now fresh unused made) c =
    subst IsConsistent made (create-IsConsistent lower s c scope input now fresh unused)
Step-IsConsistent lower s t (updating scope id input now made) c =
    subst IsConsistent made (update-IsConsistent lower s c scope id input now)
Step-IsConsistent lower s t (binding scope id credential_id provider now made) c =
    subst IsConsistent made
      (bind_dns_credential-IsConsistent lower s c scope id credential_id provider now)
Step-IsConsistent lower s t (linking scope id ref made) c =
    subst IsConsistent made (link_certificate_asset-IsConsistent lower s c scope id ref)

-- In every state that calls reach from the empty one, where `Create` draws no id that is in use, each
-- domain is stored under its own id, its name in its environment leads to it, and an entry of the
-- index that leads to an id leads to a stored domain of that name, so that no old name is left.
pub names_agree : (lower : Char → Char) (s : Governed) → Reachable lower s → IsConsistent s
names_agree lower s start = empty-IsConsistent
names_agree lower t (next {s} before step) =
    Step-IsConsistent lower s t step (names_agree lower s before)

-- Whatever is created, under ids that are not in use, renamed, bound and linked, two stored domains
-- with the same scope and the same name are one.
pub names_unique :
    (lower : Char → Char) (s : Governed) (k j : String) (d e : Domain)
    → Reachable lower s
    → lookup k s.by_id ≡ some d
    → lookup j s.by_id ≡ some e
    → d.scope ≡ e.scope
    → d.name ≡ e.name
    → k ≡ j
names_unique lower s k j d e reached = same_name s k j d e (names_agree lower s reached)
