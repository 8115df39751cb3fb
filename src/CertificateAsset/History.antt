-- ===== src/CertificateAsset/History.antt =====
-- The versions of an asset, as internal/domain/certificateasset/service.go appends them.
use Prim.Native.Char.{Char}
use auto_cert_x.Prelude.{
  ℕ, ◌+◌, String, ◌≡◌, ◌≢◌, sym, subst, Bool, false, none, some, inl, inr, List, [], ◌∷◌, ◌++◌,
  length, ok, arith, Bool-cases, Option-cases, >>=-eq-ok, reject_if-passed, ok-injective, ◌==◌,
  eq_iff, ne_of_false, false_of_ne,
}
use auto_cert_x.Text.{trim_space, lowered}
use auto_cert_x.Dict.{Dict, lookup_list, lookup_list-insert}
use auto_cert_x.Resource.Errors.{validation}
use auto_cert_x.Job.Clock.{Time}
use auto_cert_x.CertificateAsset.State.{Asset, Version, IssueInput, Assets}
use auto_cert_x.CertificateAsset.Commands.{
  distinct_ids, is_empty, normal_input, version_of, new_version, issue,
}

-- numbered from `n` on
abbrev pub Numbered : ℕ → List Version → Type 0
Numbered n [] = Unit
Numbered n (v ∷ later) = (v.version_no ≡ n) × Numbered (n + 1) later

-- none is of the workflow
abbrev pub Absent : String → List Version → Type 0
Absent workflow_id [] = Unit
Absent workflow_id (v ∷ later) = (v.issue_workflow_id ≢ workflow_id) × Absent workflow_id later

-- no two are of one workflow
abbrev pub OneEach : List Version → Type 0
OneEach [] = Unit
OneEach (v ∷ later) = Absent v.issue_workflow_id later × OneEach later

-- The versions of one asset: numbered 1, 2, …, and one for each workflow.
pub record IsHistory (versions : List Version) : Type 0 where
  pub numbered : Numbered 1 versions
  pub once : OneEach versions

Numbered-append :
    (n : ℕ) (versions : List Version) (v : Version)
    → v.version_no ≡ n + length versions
    → Numbered n versions
    → Numbered n (versions ++ v ∷ [])
Numbered-append n [] v at h = (ground arith, tt)
Numbered-append n (w ∷ later) v at (first, others) =
    (first, Numbered-append (n + 1) later v (omega arith) others)

Absent-append :
    (workflow_id : String) (versions : List Version) (v : Version)
    → v.issue_workflow_id ≢ workflow_id
    → Absent workflow_id versions
    → Absent workflow_id (versions ++ v ∷ [])
Absent-append workflow_id [] v differs h = (differs, tt)
Absent-append workflow_id (w ∷ later) v differs (first, others) =
    (first, Absent-append workflow_id later v differs others)

-- a search without result
version_of-Absent :
    (workflow_id : String) (versions : List Version)
    → workflow_id ≢ ""
    → version_of workflow_id versions ≡ none
    → Absent workflow_id versions
unfolding version_of
version_of-Absent workflow_id [] named h = tt
version_of-Absent workflow_id (v ∷ later) named h =
    let given : (workflow_id == "") ≡ false = false_of_ne workflow_id "" named in
    elim (Bool-cases (v.issue_workflow_id == workflow_id)) [
      | inl same ↦ absurd (cc (rw (same, given) at h))
      | inr differs ↦ (
        ne_of_false v.issue_workflow_id workflow_id differs,
        version_of-Absent workflow_id later named (rw differs at h),
      )
    ]

OneEach-append :
    (versions : List Version) (v : Version)
    → Absent v.issue_workflow_id versions
    → OneEach versions
    → OneEach (versions ++ v ∷ [])
OneEach-append [] v absent h = (tt, tt)
OneEach-append (w ∷ later) v (differs, absent) (first, others) = (
  Absent-append w.issue_workflow_id later v (λ e. differs (sym e)) first,
  OneEach-append later v absent others,
)

-- the version that was appended is found again
pub version_of-append :
    (workflow_id : String) (versions : List Version) (v : Version)
    → workflow_id ≢ ""
    → v.issue_workflow_id ≡ workflow_id
    → version_of workflow_id versions ≡ none
    → version_of workflow_id (versions ++ v ∷ []) ≡ some v
unfolding version_of
version_of-append workflow_id [] v named own h =
    let given : (workflow_id == "") ≡ false = false_of_ne workflow_id "" named in
    ground (arith, eq_iff v.issue_workflow_id workflow_id)
version_of-append workflow_id (w ∷ later) v named own h =
    let given : (workflow_id == "") ≡ false = false_of_ne workflow_id "" named in
    elim (Bool-cases (w.issue_workflow_id == workflow_id)) [
      | inl same ↦ absurd (cc (rw (same, given) at h))
      | inr differs ↦ rw differs (version_of-append workflow_id later v named own (rw differs at h))
    ]

-- `normalizeIssueInput` lets no blank workflow through.
pub normal_input-named :
    (lower : Char → Char) (input : IssueInput) {normal : IssueInput}
    → normal_input lower input ≡ ok normal
    → normal.issue_workflow_id ≢ ""
unfolding normal_input
normal_input-named lower input {normal} h =
    let (_, h1) = reject_if-passed (lowered lower input.name == "") validation _ h in
    let (_, h2) = reject_if-passed (trim_space input.ca_account_id == "") validation _ h1 in
    let (_, h3) = reject_if-passed (trim_space input.common_name == "") validation _ h2 in
    let (_, h4) = reject_if-passed (trim_space input.certificate_ref == "") validation _ h3 in
    let (_, h5) =
      reject_if-passed (trim_space input.certificate_request_id == "") validation _ h4 in
    let (named, h6) = reject_if-passed (trim_space input.issue_workflow_id == "") validation _ h5 in
    let (ids, _, h7) = >>=-eq-ok (distinct_ids [] input.domain_ids) _ h6 in
    let (_, h8) = reject_if-passed (is_empty ids) validation _ h7 in
    subst (λ (x : IssueInput). x.issue_workflow_id ≢ "") (ok-injective h8)
      (ne_of_false (trim_space input.issue_workflow_id) "" named)

-- Every asset has such versions.
abbrev pub HasHistories : Assets → Type 0
HasHistories s = (k : String) → IsHistory (lookup_list k s.versions)

-- Issuing keeps the versions, or appends the one of a new workflow.
pub issue-HasHistories :
    (s : Assets) (input : IssueInput) (a : Asset) (created : Bool) (names : Dict String)
    (now : Time) (fresh : String)
    → input.issue_workflow_id ≢ ""
    → HasHistories s
    → HasHistories (issue s input (a, created, names) now fresh).1
unfolding issue
issue-HasHistories s input a created names now fresh named c k =
    let versions = lookup_list a.id s.versions in
    elim (Option-cases (version_of input.issue_workflow_id versions)) [
      | inr (v, there) ↦ rw (issue, there) (c k)
      | inl missing ↦
          let v = new_version a input versions now fresh in
          let absent = version_of-Absent input.issue_workflow_id versions named missing in
          let longer : IsHistory (versions ++ v ∷ []) = record {
            numbered = Numbered-append 1 versions v (omega arith) (c a.id).numbered;
            once = OneEach-append versions v absent (c a.id).once;
          } in
          rw (issue, missing)
            (elim (Bool-cases (a.id == k)) [
              | inl same ↦ rw (lookup_list-insert, same) longer
              | inr other ↦ rw (lookup_list-insert, other) (c k)
            ])
    ]
