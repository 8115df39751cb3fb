-- ===== src/CertificateRequest/Normal.antt =====
-- What `normalizeCreateInput` of internal/domain/certificaterequest/service.go lets through.
use Prim.Native.Char.{Char}
use auto_cert_x.Prelude.{
  ℕ, ◌+◌, ◌<◌, String, ◌≡◌, ◌≢◌, refl, subst, ap, ok-injective, Bool, true, false, not, ◌&&◌, ◌||◌,
  List, [], ◌∷◌, ◌⊎◌, inl, inr, length, reject_if-passed, ok, >>=-eq-ok, arith, Bool-cases, eqb,
  ◌==◌, eq_of_true, ne_of_false, eq_iff,
}
use auto_cert_x.Prelude.Int.{is_nonpos}
use auto_cert_x.Text.{trim_space, lowered}
use auto_cert_x.Resource.Errors.{validation}
use auto_cert_x.CertificateRequest.State.{DomainRef, CreateInput}
use auto_cert_x.CertificateRequest.Input.{
  or_default, member, is_relation, is_wildcard, normal_ref, normal_refs, normal_input,
}

-- Named, none of them seen before or twice, each of a known relation and with a positive place.
abbrev pub AreNormal : List String → List DomainRef → Type 0
AreNormal seen [] = Unit
AreNormal seen (ref ∷ later) =
    (ref.domain_id ≢ "")
    × (member ref.domain_id seen ≡ false)
    × (is_relation ref.relation_type ≡ true)
    × (is_nonpos ref.sort_order ≡ false)
    × AreNormal (ref.domain_id ∷ seen) later

abbrev pub any_wildcard : List DomainRef → Bool
any_wildcard [] = false
any_wildcard (ref ∷ later) = is_wildcard ref.relation_type || any_wildcard later

-- a list of normal domains with the flag that tells whether one is a wildcard
abbrev IsFound : List String → List DomainRef × Bool → Type 0
IsFound seen found = AreNormal seen found.0 × (found.1 ≡ any_wildcard found.0)

normal_ref-positive :
    (lower : Char → Char) (index : ℕ) (ref : DomainRef)
    → is_nonpos (normal_ref lower index ref).sort_order ≡ false
normal_ref-positive lower index ref = ground arith

normal_refs-AreNormal :
    (lower : Char → Char) (index : ℕ) (seen : List String) (given : List DomainRef)
    {found : List DomainRef × Bool}
    → normal_refs lower index seen given ≡ ok found
    → IsFound seen found
unfolding normal_refs
normal_refs-AreNormal lower index seen [] {found} h =
    subst (IsFound seen) (ok-injective h) (tt, refl)
normal_refs-AreNormal lower index seen (ref ∷ later) {found} h =
    let next = normal_ref lower index ref in
    elim (Bool-cases (next.domain_id == "")) [
      | inl blank ↦ absurd (cc (rw blank at h))
      | inr named ↦ elim (Bool-cases (member next.domain_id seen)) [
        | inl again ↦ absurd (cc (rw (named, again) at h))
        | inr first ↦ elim (Bool-cases (is_relation next.relation_type)) [
          | inr unknown ↦ absurd (cc (rw (named, first, unknown) at h))
          | inl known ↦
              let (rest, e, h1) =
                >>=-eq-ok (normal_refs lower (index + 1) (next.domain_id ∷ seen) later) _
                  (rw (named, first, known) at h) in
              let (normal, wild) =
                normal_refs-AreNormal lower (index + 1) (next.domain_id ∷ seen) later e in
              subst (IsFound seen) (ok-injective h1) (
                (
                  ne_of_false next.domain_id "" named,
                  first,
                  known,
                  normal_ref-positive lower index ref,
                  normal,
                ),
                ap (λ b. is_wildcard next.relation_type || b) wild,
              )
        ]
      ]
    ]

guarded : (s a t : String) → (s == a && t == "") ≡ false → s ≡ a → t ≢ ""
guarded s a t h e = ne_of_false t "" (ground (arith, eq_iff s a))

-- one of two types, of which the second names an asset
issue_or_renew :
    (s t : String)
    → (not (s == "issue") && not (s == "renew")) ≡ false
    → (s == "renew" && t == "") ≡ false
    → (s ≡ "issue") ⊎ ((s ≡ "renew") × (t ≢ ""))
issue_or_renew s t known named = elim (Bool-cases (s == "issue")) [
  | inl e ↦ inl (eq_of_true s "issue" e)
  | inr n ↦
      let renews = eq_of_true s "renew" (ground arith) in
      inr (renews, guarded s "renew" t named renews)
]

positive : (n : ℕ) → eqb n 0 ≡ false → 0 < n
positive n h = ground arith

unless_single :
    (s : String) (n : ℕ) → (s == "single" && not (eqb n 1)) ≡ false → (s ≢ "single") ⊎ (n ≡ 1)
unless_single s n h = elim (Bool-cases (s == "single")) [
  | inl e ↦ inr (ground arith)
  | inr other ↦ inl (ne_of_false s "single" other)
]

unless_wildcard :
    (s : String) (any flag : Bool)
    → flag ≡ any
    → (s == "wildcard" && not flag) ≡ false
    → (s ≢ "wildcard") ⊎ (any ≡ true)
unless_wildcard s any flag e h = elim (Bool-cases (s == "wildcard")) [
  | inl wild ↦ inr (ground arith)
  | inr other ↦ inl (ne_of_false s "wildcard" other)
]

by_dns :
    (any flag : Bool) (s : String)
    → flag ≡ any
    → (flag && not (s == "dns-01")) ≡ false
    → (any ≡ false) ⊎ (s ≡ "dns-01")
by_dns any flag s e h = elim (Bool-cases any) [
  | inl wild ↦ inr (eq_of_true s "dns-01" (ground arith))
  | inr plain ↦ inl plain
]

-- What a normalized request promises to the orchestration.
pub record IsNormal (input : CreateInput) (refs : List DomainRef) : Type 0 where
  pub typed :
      (input.request_type ≡ "issue") ⊎ ((input.request_type ≡ "renew") × (input.asset_id ≢ ""))
  pub keyed : input.idempotency_key ≢ ""
  pub answered : input.ca_account_id ≢ ""
  pub distinct : AreNormal [] refs
  pub some_domain : 0 < length refs
  pub single : (input.certificate_type ≢ "single") ⊎ (length refs ≡ 1)
  pub wildcard : (input.certificate_type ≢ "wildcard") ⊎ (any_wildcard refs ≡ true)
  pub wildcard_by_dns : (any_wildcard refs ≡ false) ⊎ (input.challenge_type ≡ "dns-01")

-- A request that passes the validation of `normalizeCreateInput` is an issue or a renewal, a renewal
-- names its asset, the key and the CA account are not blank, and there is a domain; the domains are
-- named, distinct, of a known relation and of a positive order; a single certificate has one domain, a
-- wildcard certificate has a wildcard domain, and where a domain is a wildcard the challenge is dns-01.
pub normal_input-IsNormal :
    (lower : Char → Char) (input : CreateInput) {normal : CreateInput} {refs : List DomainRef}
    → normal_input lower input ≡ ok (normal, refs)
    → IsNormal normal refs
unfolding normal_input
normal_input-IsNormal lower input {normal} {refs} h =
    let request_type = or_default (lowered lower input.request_type) "issue" in
    let request_source = or_default (lowered lower input.request_source) "manual" in
    let certificate_type = lowered lower input.certificate_type in
    let challenge_type = lowered lower input.challenge_type in
    let (typed, h1) =
      reject_if-passed (not (request_type == "issue") && not (request_type == "renew")) validation _
        h in
    let (sourced, h2) =
      reject_if-passed (not (request_source == "manual") && not (request_source == "scheduled"))
        validation _ h1 in
    let (_, h3) =
      reject_if-passed
        (not (
          certificate_type == "single"
          || certificate_type == "san"
          || certificate_type == "wildcard"))
        validation _ h2 in
    let (_, h4) =
      reject_if-passed (not (challenge_type == "http-01" || challenge_type == "dns-01")) validation
        _ h3 in
    let (_, h5) = reject_if-passed (lowered lower input.common_name == "") validation _ h4 in
    let (account, h6) = reject_if-passed (trim_space input.ca_account_id == "") validation _ h5 in
    let (key, h7) = reject_if-passed (trim_space input.idempotency_key == "") validation _ h6 in
    let (renews, h8) =
      reject_if-passed (request_type == "renew" && trim_space input.asset_id == "") validation _
        h7 in
    let (found, e, h9) = >>=-eq-ok (normal_refs lower 0 [] input.domains) _ h8 in
    let (some_domain, h10) = reject_if-passed (eqb (length found.0) 0) validation _ h9 in
    let (single, h11) =
      reject_if-passed (certificate_type == "single" && not (eqb (length found.0) 1)) validation _
        h10 in
    let (wildcard, h12) =
      reject_if-passed (certificate_type == "wildcard" && not found.1) validation _ h11 in
    let (dns, h13) =
      reject_if-passed (found.1 && not (challenge_type == "dns-01")) validation _ h12 in
    let (normal_domains, wild) = normal_refs-AreNormal lower 0 [] input.domains e in
    subst (λ (p : CreateInput × List DomainRef). IsNormal p.0 p.1) (ok-injective h13)
      (record {
        typed = issue_or_renew request_type (trim_space input.asset_id) typed renews;
        keyed = ne_of_false (trim_space input.idempotency_key) "" key;
        answered = ne_of_false (trim_space input.ca_account_id) "" account;
        distinct = normal_domains;
        some_domain = positive (length found.0) some_domain;
        single = unless_single certificate_type (length found.0) single;
        wildcard = unless_wildcard certificate_type (any_wildcard found.0) found.1 wild wildcard;
        wildcard_by_dns = by_dns (any_wildcard found.0) found.1 challenge_type wild dns;
      })
