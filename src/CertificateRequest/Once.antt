-- ===== src/CertificateRequest/Once.antt =====
-- `Create` and `GetByIdempotency` of internal/domain/certificaterequest/service.go together.
use Prim.Native.Char.{Char}
use auto_cert_x.Prelude.{
  false, String, ◌≡◌, refl, sym, ap, not, ◌&&◌, ◌||◌, List, [], length, ok, err, inl, inr,
  Option-cases, Result-cases, >>=-eq-ok, ok-injective, reject_if-passed, eqb, ◌==◌,
}
use auto_cert_x.Text.{trim_space, lowered}
use auto_cert_x.Dict.{lookup, lookup-insert_self}
use auto_cert_x.Job.Clock.{Time}
use auto_cert_x.Resource.Errors.{conflict, validation}
use auto_cert_x.Resource.Scope.{Scope, validate}
use auto_cert_x.Resource.Stores.{scoped_key}
use auto_cert_x.CertificateRequest.State.{DomainRef, Request, CreateInput, Requests}
use auto_cert_x.CertificateRequest.Input.{or_default, normal_refs, normal_input}
use auto_cert_x.CertificateRequest.Commands.{create, get_by_idempotency}

-- the key is trimmed, and not blank
normal_input-key :
    (lower : Char → Char) (input : CreateInput) {normal : CreateInput} {refs : List DomainRef}
    → normal_input lower input ≡ ok (normal, refs)
    → ((trim_space input.idempotency_key == "") ≡ false)
      × (normal.idempotency_key ≡ trim_space input.idempotency_key)
unfolding normal_input
normal_input-key lower input {normal} {refs} h =
    let request_type = or_default (lowered lower input.request_type) "issue" in
    let request_source = or_default (lowered lower input.request_source) "manual" in
    let certificate_type = lowered lower input.certificate_type in
    let challenge_type = lowered lower input.challenge_type in
    let (_, h1) =
      reject_if-passed (not (request_type == "issue") && not (request_type == "renew")) validation _
        h in
    let (_, h2) =
      reject_if-passed (not (request_source == "manual") && not (request_source == "scheduled"))
        validation _ h1 in
    let (_, h3) =
      reject_if-passed
        (not (
          certificate_type == "single"
          || certificate_type == "san"
          || certificate_type == "wildcard"))
        validation _ h2 in
    let (_, h4) =
      reject_if-passed (not (challenge_type == "http-01" || challenge_type == "dns-01")) validation
        _ h3 in
    let (_, h5) = reject_if-passed (lowered lower input.common_name == "") validation _ h4 in
    let (_, h6) = reject_if-passed (trim_space input.ca_account_id == "") validation _ h5 in
    let (key, h7) = reject_if-passed (trim_space input.idempotency_key == "") validation _ h6 in
    let (_, h8) =
      reject_if-passed (request_type == "renew" && trim_space input.asset_id == "") validation _
        h7 in
    let (found, _, h9) = >>=-eq-ok (normal_refs lower 0 [] input.domains) _ h8 in
    let (_, h10) = reject_if-passed (eqb (length found.0) 0) validation _ h9 in
    let (_, h11) =
      reject_if-passed (certificate_type == "single" && not (eqb (length found.0) 1)) validation _
        h10 in
    let (_, h12) =
      reject_if-passed (certificate_type == "wildcard" && not found.1) validation _ h11 in
    let (_, h13) =
      reject_if-passed (found.1 && not (challenge_type == "dns-01")) validation _ h12 in
    (key, ap (λ (p : CreateInput × List DomainRef). p.0.idempotency_key) (sym (ok-injective h13)))

-- A request that was created is what its idempotency key finds, however the key is padded, and creating
-- it again, at any time and under any new id, is refused as a conflict and changes nothing.
pub request_once :
    (lower : Char → Char) (s t : Requests) (scope : Scope) (input : CreateInput) (now later : Time)
    (fresh fresh₂ : String) {r : Request}
    → create lower s scope input now fresh ≡ (ok r, t)
    → (get_by_idempotency t scope input.idempotency_key ≡ ok r)
      × (create lower t scope input later fresh₂ ≡ (err conflict, t))
unfolding create get_by_idempotency
request_once lower s t scope input now later fresh fresh₂ {r} h =
    elim (Result-cases (validate scope)) [
      | inr (e, bad) ↦ absurd (cc (rw bad at h))
      | inl (_, valid) ↦ elim (Result-cases (normal_input lower input)) [
        | inr (e, bad) ↦ absurd (cc (rw (valid, bad) at h))
        | inl (normal, sound) ↦
            let (given, key) = normal_input-key lower input sound in
            elim (Option-cases
              (lookup (scoped_key scope (normal.0).idempotency_key) s.by_idempotency)) [
                | inr (id, taken) ↦ absurd (cc (rw (valid, sound, taken) at h))
                | inl free ↦
                    let answer = rw (valid, sound, free) at h in
                    let stored = ap (λ x. x.1) answer in
                    rw (sym stored) (
                      rw (valid, given, sym key, lookup-insert_self, sym stored)
                          (rw lookup-insert_self (ap (λ x. x.0) answer)),
                      rw (valid, sound, lookup-insert_self) refl,
                    )
              ]
      ]
    ]
