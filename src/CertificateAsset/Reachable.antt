-- ===== src/CertificateAsset/Reachable.antt =====
-- The assets of internal/domain/certificateasset/service.go as a state machine: every sequence of calls.
use Prim.Native.Char.{Char}
use auto_cert_x.Prelude.{
  String, ◌≡◌, refl, sym, ap, ◌∙◌, subst, some, inl, inr, [], ok, arith, Bool-cases, Option-cases,
  Result-cases, >>=-eq-ok, ok-injective, ◌==◌,
}
use auto_cert_x.Text.{trim_space}
use auto_cert_x.Dict.{Dict, lookup, lookup_list, insert, lookup-insert, lookup-insert_self}
use auto_cert_x.Job.Clock.{Time}
use auto_cert_x.Resource.Scope.{Scope, validate}
use auto_cert_x.Resource.Stores.{find, scoped_key}
use auto_cert_x.Resource.Keyed.{insert-IsKeyed}
use auto_cert_x.CertificateAsset.State.{Asset, AssetStatus, IssueInput, Assets}
use auto_cert_x.CertificateAsset.Commands.{
  scope_of, normal_input, target, Target, issue, upsert_issued, update_status,
}
use auto_cert_x.CertificateAsset.History.{IsHistory, issue-HasHistories, normal_input-named}
use auto_cert_x.CertificateAsset.Reissue.{IsConsistent, issue-IsIssued}

-- `NewService`
abbrev pub no_assets : Assets
no_assets = record { by_id = []; by_name = []; versions = [] }

pub data Step (lower : Char → Char) (s t : Assets) : Type 0 where
  issuing :
      (scope : Scope) (input : IssueInput) (now : Time) (fresh fresh' : String)
      → (upsert_issued lower s scope input now fresh fresh').1 ≡ t
      → Step lower s t
  marking :
      (scope : Scope) (id : String) (status : AssetStatus) (now : Time)
      → (update_status s scope id status now).1 ≡ t
      → Step lower s t

pub data Reachable (lower : Char → Char) : Assets → Type 0 where
  start : Reachable lower no_assets
  next : {s t : Assets} → Reachable lower s → Step lower s t → Reachable lower t

no_assets-IsConsistent : IsConsistent no_assets
unfolding lookup lookup_list
no_assets-IsConsistent = record {
  own = λ k a e. cc;
  named = λ key k e. absurd cc;
  histories = λ k. record { numbered = tt; once = tt };
}

-- an asset that is stored under its id, among those that were there
still-stored :
    (records : Dict Asset) (a : Asset) (k : String) {b : Asset}
    → lookup k records ≡ some b
    → (e : Asset) × (lookup k (insert a.id a records) ≡ some e)
still-stored records a k {b} here = elim (Bool-cases (a.id == k)) [
  | inl same ↦ (a, ground (arith, lookup-insert a.id k a records))
  | inr other ↦ (b, ground (arith, lookup-insert a.id k a records))
]

module _ (lower : Char → Char) (s : Assets) (c : IsConsistent s) where
  -- every name of a choice leads to an asset that was stored, or to the one chosen
  target-named :
      (scope : Scope) (input : IssueInput) (now : Time) (fresh : String) (chosen : Target)
      (a : Asset)
      → target s scope input now fresh ≡ ok chosen
      → a.id ≡ chosen.0.id
      → (key k : String) → lookup key chosen.2 ≡ some k
      → (e : Asset) × (lookup k (insert a.id a s.by_id) ≡ some e)
  unfolding target
  target-named scope input now fresh chosen a h same_id key k there =
      elim (Bool-cases (input.asset_id == "")) [
        | inr given ↦
            let (b, _, made) =
              >>=-eq-ok (find scope_of s.by_id scope input.asset_id) _ (rw given at h) in
            known_name (ap (λ (x : Target). x.2) (ok-injective made))
        | inl blank ↦ elim (Option-cases (lookup (scoped_key scope input.name) s.by_name)) [
          | inr (id, held) ↦
              known_name (ap (λ (x : Target). x.2) (ok-injective (rw (blank, held) at h)))
          | inl free ↦
              let is_new = ok-injective (rw (blank, free) at h) in
              let longer : insert (scoped_key scope input.name) fresh s.by_name ≡ chosen.2 =
                ap (λ (x : Target). x.2) is_new in
              let id : a.id ≡ fresh = same_id ∙ ap (λ (x : Target). x.0.id) (sym is_new) in
              let at : lookup key (insert (scoped_key scope input.name) fresh s.by_name) ≡ some k =
                subst (λ x. lookup key x ≡ some k) (sym longer) there in
              elim (Bool-cases (scoped_key scope input.name == key)) [
                | inl same ↦
                    let is_fresh : fresh ≡ k = ground (
                      arith,
                      at,
                      lookup-insert (scoped_key scope input.name) key fresh s.by_name,
                    ) in
                    (
                      a,
                      subst (λ x. lookup x (insert a.id a s.by_id) ≡ some a) (id ∙ is_fresh)
                          (lookup-insert_self a.id a s.by_id),
                    )
                | inr other ↦
                    let (b, here) = c.named key k (
                      ground (
                        arith,
                        at,
                        lookup-insert (scoped_key scope input.name) key fresh s.by_name,
                      )) in
                    still-stored s.by_id a k here
              ]
        ]
      ]
    where
      known_name : s.by_name ≡ chosen.2 → (e : Asset) × (lookup k (insert a.id a s.by_id) ≡ some e)
      known_name kept =
          let (b, here) = c.named key k (subst (λ x. lookup key x ≡ some k) (sym kept) there) in
          still-stored s.by_id a k here

  upsert_issued-IsConsistent :
      (scope : Scope) (input : IssueInput) (now : Time) (fresh fresh' : String)
      → IsConsistent (upsert_issued lower s scope input now fresh fresh').1
  unfolding upsert_issued
  upsert_issued-IsConsistent scope input now fresh fresh' = elim (Result-cases (validate scope)) [
    | inr (e, bad) ↦ rw bad c
    | inl (_, valid) ↦ elim (Result-cases (normal_input lower input)) [
      | inr (e, bad) ↦ rw (valid, bad) c
      | inl (normal, sound) ↦ elim (Result-cases (target s scope normal now fresh)) [
        | inr (e, bad) ↦ rw (valid, sound, bad) c
        | inl (chosen, found) ↦
            let named = normal_input-named lower input sound in
            let issued = issue-IsIssued s normal chosen now fresh' named in
            let (a, v, created) = (issue s normal chosen now fresh').0 in
            rw (valid, sound, found)
              (record {
                own =
                    rw issued.stored
                      (insert-IsKeyed (λ (x : Asset). x.id) s.by_id a.id a refl c.own);
                named =
                    rw (issued.stored, issued.names)
                      (target-named scope normal now fresh chosen a found issued.same_id);
                histories =
                    issue-HasHistories s normal chosen.0 chosen.1 chosen.2 now fresh' named
                      c.histories;
              })
      ]
    ]
  ]

  update_status-IsConsistent :
      (scope : Scope) (id : String) (status : AssetStatus) (now : Time)
      → IsConsistent (update_status s scope id status now).1
  unfolding update_status
  update_status-IsConsistent scope id status now = elim (Result-cases (validate scope)) [
    | inr (e, bad) ↦ rw bad c
    | inl (_, valid) ↦ elim (Bool-cases (trim_space id == "")) [
      | inl blank ↦ rw (valid, blank) c
      | inr given ↦ elim (Result-cases (find scope_of s.by_id scope id)) [
        | inr (e, bad) ↦ rw (valid, given, bad) c
        | inl (a, found) ↦
            let changed = record a { status = status; updated_at = now } in
            rw (valid, given, found)
              (record {
                own = insert-IsKeyed (λ (x : Asset). x.id) s.by_id a.id changed refl c.own;
                named = λ key k there.
                    let (b, here) = c.named key k there in still-stored s.by_id changed k here;
                histories = c.histories;
              })
      ]
    ]
  ]

Step-IsConsistent :
    (lower : Char → Char) (s t : Assets) → Step lower s t → IsConsistent s → IsConsistent t
Step-IsConsistent lower s t (issuing scope input now fresh fresh' made) c =
    subst IsConsistent made (upsert_issued-IsConsistent lower s c scope input now fresh fresh')
Step-IsConsistent lower s t (marking scope id status now made) c =
    subst IsConsistent made (update_status-IsConsistent lower s c scope id status now)

pub Reachable-IsAssets : (lower : Char → Char) (s : Assets) → Reachable lower s → IsConsistent s
Reachable-IsAssets lower s start = no_assets-IsConsistent
Reachable-IsAssets lower t (next {s} before step) =
    Step-IsConsistent lower s t step (Reachable-IsAssets lower s before)

-- Whatever is issued and marked, the versions of every asset are numbered 1, 2, and so on in the order in
-- which they were issued, and no two of them are of one workflow.
pub versions_numbered :
    (lower : Char → Char) (s : Assets) (k : String)
    → Reachable lower s
    → IsHistory (lookup_list k s.versions)
versions_numbered lower s k reached = (Reachable-IsAssets lower s reached).histories k
