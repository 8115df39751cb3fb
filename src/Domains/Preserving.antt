-- ===== src/Domains/Preserving.antt =====
-- The calls of internal/domain/domains/service.go keep the index by name.
use Prim.Native.Char.{Char}
use auto_cert_x.Prelude.{
  String, ◌≡◌, refl, some, ap, ◌∙◌, none, eq_of_true, inl, inr, Result-cases, Bool-cases,
  Option-cases, arith, ◌==◌, eq_iff,
}
use auto_cert_x.Text.{trim_space}
use auto_cert_x.Dict.{lookup, lookup-insert, lookup-insert_self}
use auto_cert_x.Job.Clock.{Time}
use auto_cert_x.Resource.Scope.{Scope, validate}
use auto_cert_x.Resource.Stores.{find, find-lookup, scoped_key}
use auto_cert_x.Domains.State.{CertificateAssetRef, UpsertInput, Governed}
use auto_cert_x.Domains.Commands.{
  scope_of, validated, create, renamed, update, bind_dns_credential, get, link_certificate_asset,
}
use auto_cert_x.Domains.Names.{
  key_of, IsConsistent, written-IsConsistent, own_lookup, renamed-named, renamed-kept, renamed-back,
  renamed-only,
}

module _ (lower : Char → Char) (s : Governed) (c : IsConsistent s) where
  -- `Create`, under an id that is not in use
  pub create-IsConsistent :
      (scope : Scope) (input : UpsertInput) (now : Time) (fresh : String)
      → lookup fresh s.by_id ≡ none
      → IsConsistent (create lower s scope input now fresh).1
  unfolding create
  create-IsConsistent scope input now fresh unused = elim (Result-cases (validate scope)) [
    | inr (e, bad) ↦ rw bad c
    | inl (_, valid) ↦ elim (Result-cases (validated lower input)) [
      | inr (e, bad) ↦ rw (valid, bad) c
      | inl (name, sound) ↦ elim (Option-cases (lookup (scoped_key scope name) s.by_name)) [
        | inr (id, taken) ↦ rw (valid, sound, taken) c
        | inl free ↦
            rw (valid, sound, free)
              (written-IsConsistent s fresh _ _ c refl
                (ground (arith, lookup-insert_self (scoped_key scope name) fresh s.by_name))
                (λ j e other there.
                  let before = (c.indexed j e there).named in
                  ground (
                    arith,
                    before,
                    free,
                    lookup-insert (scoped_key scope name) (key_of e) fresh s.by_name,
                    eq_iff (scoped_key scope name) (key_of e),
                  ))
                (λ key j there other.
                  ground (arith, lookup-insert (scoped_key scope name) key fresh s.by_name))
                (λ key there. elim (Bool-cases (scoped_key scope name == key)) [
                  | inl same ↦ eq_of_true (scoped_key scope name) key same
                  | inr other ↦
                      let before : lookup key s.by_name ≡ some fresh =
                        ground (
                          arith,
                          there,
                          lookup-insert (scoped_key scope name) key fresh s.by_name,
                        ) in
                      let (e, at, _) = c.stored key fresh before in
                      absurd (ground (arith, at, unused))
                ]))
      ]
    ]
  ]

  pub update-IsConsistent :
      (scope : Scope) (id : String) (input : UpsertInput) (now : Time)
      → IsConsistent (update lower s scope id input now).1
  unfolding update
  update-IsConsistent scope id input now = elim (Result-cases (validate scope)) [
    | inr (e, bad) ↦ rw bad c
    | inl (_, valid) ↦ elim (Result-cases (validated lower input)) [
      | inr (e, bad) ↦ rw (valid, bad) c
      | inl (name, sound) ↦ elim (Result-cases (find scope_of s.by_id scope id)) [
        | inr (e, bad) ↦ rw (valid, sound, bad) c
        | inl (d, found) ↦ elim (Result-cases (renamed s d name)) [
          | inr (e, bad) ↦ rw (valid, sound, found, bad) c
          | inl (names, moved) ↦
              let at_id = find-lookup scope_of s.by_id scope id found in
              let here = own_lookup s c id d at_id in
              rw (valid, sound, found, moved)
                (written-IsConsistent s d.id _ names c refl (renamed-named s c d name here moved)
                  (λ j e. renamed-kept s c d name j e here moved)
                  (λ key j. renamed-back s c d name key j moved)
                  (λ key. renamed-only s c d name key here moved))
        ]
      ]
    ]
  ]

  pub bind_dns_credential-IsConsistent :
      (scope : Scope) (id credential_id provider : String) (now : Time)
      → IsConsistent (bind_dns_credential lower s scope id credential_id provider now).1
  unfolding bind_dns_credential
  bind_dns_credential-IsConsistent scope id credential_id provider now =
      elim (Result-cases (find scope_of s.by_id scope id)) [
        | inr (e, bad) ↦ rw bad c
        | inl (d, found) ↦
            let at_id = find-lookup scope_of s.by_id scope id found in
            let here = own_lookup s c id d at_id in
            elim (Bool-cases (trim_space credential_id == "")) [
              | inl blank ↦ rw (found, blank) c
              | inr named ↦
                  rw (found, named)
                    (written-IsConsistent s d.id _ s.by_name c refl (c.indexed d.id d here).named
                      (λ j e other there. (c.indexed j e there).named) (λ key j there other. there)
                      (λ key there.
                        let (e, at, its) = c.stored key d.id there in
                        let one : d ≡ e = ground (arith, here, at) in ap key_of one ∙ its))
            ]
      ]

  pub link_certificate_asset-IsConsistent :
      (scope : Scope) (id : String) (ref : CertificateAssetRef)
      → IsConsistent (link_certificate_asset s scope id ref).1
  unfolding link_certificate_asset
  link_certificate_asset-IsConsistent scope id ref = elim (Result-cases (get s scope id)) [
    | inr (e, bad) ↦ rw bad c
    | inl (d, found) ↦ elim (Bool-cases (trim_space ref.id == "")) [
      | inl blank ↦ rw (found, blank) c
      | inr given ↦ elim (Bool-cases (trim_space ref.name == "")) [
        | inl blank ↦ rw (found, given, blank) c
        | inr named ↦ rw (found, given, named) (record { indexed = c.indexed; stored = c.stored })
      ]
    ]
  ]
