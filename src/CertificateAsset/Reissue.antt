-- ===== src/CertificateAsset/Reissue.antt =====
-- `UpsertIssued` of internal/domain/certificateasset/service.go, when a job stores its certificate again.
use Prim.Native.Char.{Char}
use auto_cert_x.Prelude.{
  eq_refl, String, ◌≡◌, ◌≢◌, refl, sym, ap, ◌∙◌, subst, Bool, true, false, some, inl, inr, ok,
  Bool-cases, Option-cases, >>=-eq-ok, ok-injective, Result-cases, ◌==◌,
}
use auto_cert_x.Dict.{lookup, lookup_list, insert, lookup-insert_self, lookup_list-insert}
use auto_cert_x.Job.Clock.{Time}
use auto_cert_x.Resource.Scope.{Scope, validate, equals_refl}
use auto_cert_x.Resource.Stores.{commit, find, find-lookup, find-scope, scoped_key}
use auto_cert_x.CertificateAsset.State.{Asset, Version, IssueInput, Assets, AssetStatus, active}
use auto_cert_x.CertificateAsset.Commands.{
  scope_of, normal_input, stored_asset, target, Target, version_of, new_version, issue,
  upsert_issued,
}
use auto_cert_x.CertificateAsset.History.{HasHistories, version_of-append, normal_input-named}

-- An asset is stored under its own id, and a name leads to a stored asset.
pub record IsConsistent (s : Assets) : Type 0 where
  pub own : (k : String) (a : Asset) → lookup k s.by_id ≡ some a → a.id ≡ k
  pub named :
      (key k : String) → lookup key s.by_name ≡ some k → (a : Asset) × (lookup k s.by_id ≡ some a)
  pub histories : HasHistories s

-- An asset that is stored under its own id
lookup-stored :
    (s t : Assets) (a : Asset) (id : String)
    → a.id ≡ id
    → t.by_id ≡ insert a.id a s.by_id
    → lookup id t.by_id ≡ some a
lookup-stored s t a id same stored =
    subst (λ x. lookup x t.by_id ≡ some a) same (rw stored (lookup-insert_self a.id a s.by_id))

target-by_name :
    (s t : Assets) (scope : Scope) (input : IssueInput) (later : Time) (fresh id : String)
    (a : Asset)
    → (input.asset_id == "") ≡ true
    → lookup (scoped_key scope input.name) t.by_name ≡ some id
    → lookup id t.by_id ≡ some a
    → target t scope input later fresh ≡ ok (a, false, t.by_name)
unfolding target
target-by_name s t scope input later fresh id a blank index here =
    rw (blank, index, stored_asset, here) refl

-- The asset of a choice is found again once it is stored.
target-again :
    (s t : Assets) (scope : Scope) (input : IssueInput) (now later : Time) (fresh fresh₂ : String)
    (chosen : Target) (a : Asset)
    → IsConsistent s
    → target s scope input now fresh ≡ ok chosen
    → a.id ≡ chosen.0.id
    → a.scope ≡ chosen.0.scope
    → t.by_name ≡ chosen.2
    → t.by_id ≡ insert a.id a s.by_id
    → target t scope input later fresh₂ ≡ ok (a, false, t.by_name)
unfolding target
target-again s t scope input now later fresh fresh₂ chosen a c h same_id same_scope names stored =
    elim (Bool-cases (input.asset_id == "")) [
      | inr given ↦
          let (b, found, made) =
            >>=-eq-ok (find scope_of s.by_id scope input.asset_id) _ (rw given at h) in
          let is_b : (b, false, s.by_name) ≡ chosen = ok-injective made in
          let own =
            c.own input.asset_id b (find-lookup scope_of s.by_id scope input.asset_id found) in
          let id : a.id ≡ input.asset_id =
            same_id ∙ (ap (λ (x : Target). x.0.id) (sym is_b) ∙ own) in
          let at_scope : a.scope ≡ scope =
            same_scope
            ∙ (ap (λ (x : Target). x.0.scope) (sym is_b)
                ∙ find-scope scope_of s.by_id scope input.asset_id found) in
          let here = lookup-stored s t a input.asset_id id stored in
          let again : find scope_of t.by_id scope input.asset_id ≡ ok a =
            rw (find, here, at_scope, equals_refl) refl in
          rw (given, again) refl
      | inl blank ↦ elim (Option-cases (lookup (scoped_key scope input.name) s.by_name)) [
        | inr (id, there) ↦
            let (b, at_id) = c.named (scoped_key scope input.name) id there in
            let is_b : (stored_asset s id, false, s.by_name) ≡ chosen =
              ok-injective (rw (blank, there) at h) in
            let read : stored_asset s id ≡ b = rw (stored_asset, at_id) refl in
            let same : a.id ≡ id =
              same_id
              ∙ (ap (λ (x : Target). x.0.id) (sym is_b)
                  ∙ (ap (λ (x : Asset). x.id) read ∙ c.own id b at_id)) in
            let kept : t.by_name ≡ s.by_name = names ∙ ap (λ (x : Target). x.2) (sym is_b) in
            target-by_name s t scope input later fresh₂ id a blank (rw kept there)
              (lookup-stored s t a id same stored)
        | inl free ↦
            let is_new = ok-injective (rw (blank, free) at h) in
            let same : a.id ≡ fresh = same_id ∙ ap (λ (x : Target). x.0.id) (sym is_new) in
            let longer = names ∙ ap (λ (x : Target). x.2) (sym is_new) in
            target-by_name s t scope input later fresh₂ fresh a blank
              (rw longer (lookup-insert_self (scoped_key scope input.name) fresh s.by_name))
              (lookup-stored s t a fresh same stored)
      ]
    ]

-- What issuing to a choice leaves behind: the asset is stored, and its workflow has its version.
pub record IsIssued (s t : Assets) (input : IssueInput) (chosen : Target) (a : Asset) (v : Version)
    : Type 0 where
  pub same_id : a.id ≡ chosen.0.id
  pub same_scope : a.scope ≡ chosen.0.scope
  pub names : t.by_name ≡ chosen.2
  pub stored : t.by_id ≡ insert a.id a s.by_id
  pub found : version_of input.issue_workflow_id (lookup_list a.id t.versions) ≡ some v
  pub current : a.current_version_id ≡ v.id
  pub in_use : a.status ≡ active

pub issue-IsIssued :
    (s : Assets) (input : IssueInput) (chosen : Target) (now : Time) (fresh : String)
    → input.issue_workflow_id ≢ ""
    → let ((a, v, created), t) = issue s input chosen now fresh in IsIssued s t input chosen a v
unfolding issue
issue-IsIssued s input (a, created, names) now fresh named =
    let versions = lookup_list a.id s.versions in
    elim (Option-cases (version_of input.issue_workflow_id versions)) [
      | inr (v, there) ↦
          rw (issue, there)
            (record {
              same_id = refl;
              same_scope = refl;
              names = refl;
              stored = refl;
              found = there;
              current = refl;
              in_use = refl;
            })
      | inl missing ↦
          let v = new_version a input versions now fresh in
          rw (issue, missing)
            (record {
              same_id = refl;
              same_scope = refl;
              names = refl;
              stored = refl;
              found =
                  rw (lookup_list-insert, eq_refl a.id)
                    (version_of-append input.issue_workflow_id versions v named refl missing);
              current = refl;
              in_use = refl;
            })
    ]

refreshed :
    (a : Asset) (id : String) (status : AssetStatus) (later : Time)
    → a.current_version_id ≡ id
    → a.status ≡ status
    → record a { current_version_id = id; status = status; updated_at = later }
      ≡ record a { updated_at = later }
refreshed a id status later current in_use = rw (sym current, sym in_use) refl

issue-again :
    (s t : Assets) (input : IssueInput) (chosen : Target) (a : Asset) (v : Version) (later : Time)
    (fresh : String)
    → IsIssued s t input chosen a v
    → issue t input (a, false, t.by_name) later fresh ≡ (
      (record a { updated_at = later }, v, false),
      record t { by_id = insert a.id (record a { updated_at = later }) t.by_id },
    )
unfolding issue
issue-again s t input chosen a v later fresh done =
    rw (issue, done.found, refreshed a v.id active later done.current done.in_use) refl

issue-committed :
    (s : Assets) (input : IssueInput) (chosen : Target) (now : Time) (fresh : String)
    {r : Asset × Version × Bool} {t : Assets}
    → commit s (ok (issue s input chosen now fresh)) ≡ (ok r, t)
    → issue s input chosen now fresh ≡ (r, t)
issue-committed s input chosen now fresh h = cc

-- Storing the certificate of a workflow again, as a repeated job does, returns the same asset and the
-- same version, creates nothing, and changes only when the asset was updated: no version is added.
-- The state before the first time is one in which assets are stored under their own ids and names
-- lead to stored assets.
pub reissue_idempotent :
    (lower : Char → Char) (s t : Assets) (scope : Scope) (input : IssueInput) (now later : Time)
    (fresh fresh' fresh₂ fresh₂' : String) {a : Asset} {v : Version} {created : Bool}
    → IsConsistent s
    → upsert_issued lower s scope input now fresh fresh' ≡ (ok (a, v, created), t)
    → upsert_issued lower t scope input later fresh₂ fresh₂' ≡ (
      ok (record a { updated_at = later }, v, false),
      record t { by_id = insert a.id (record a { updated_at = later }) t.by_id },
    )
unfolding upsert_issued
reissue_idempotent lower s t scope input now later fresh fresh' fresh₂ fresh₂' {a} {v} {created} c
      h =
    elim (Result-cases (validate scope)) [
      | inr (e, bad) ↦ absurd (cc (rw bad at h))
      | inl (_, valid) ↦ elim (Result-cases (normal_input lower input)) [
        | inr (e, bad) ↦ absurd (cc (rw (valid, bad) at h))
        | inl (normal, sound) ↦ elim (Result-cases (target s scope normal now fresh)) [
          | inr (e, bad) ↦ absurd (cc (rw (valid, sound, bad) at h))
          | inl (chosen, found) ↦
              let first : issue s normal chosen now fresh' ≡ ((a, v, created), t) =
                issue-committed s normal chosen now fresh' (rw (valid, sound, found) at h) in
              let issued =
                subst
                  (λ (p : (Asset × Version × Bool) × Assets).
                    IsIssued s p.1 normal chosen p.0.0 p.0.1)
                  first
                  (issue-IsIssued s normal chosen now fresh'
                    (normal_input-named lower input sound)) in
              let again =
                target-again s t scope normal now later fresh fresh₂ chosen a c found issued.same_id
                  issued.same_scope issued.names issued.stored in
              rw (valid, sound, again, issue-again s t normal chosen a v later fresh₂' issued) refl
        ]
      ]
    ]
