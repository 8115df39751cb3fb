-- ===== src/IssueWorkflow/Requests.antt =====
-- `Create` and `GetByRequest` of internal/domain/issueworkflow/service.go together.
use Prim.Native.Char.{Char}
use auto_cert_x.Prelude.{
  String, ◌≡◌, refl, sym, ap, Option-cases, not, ok, err, Result-cases, inl, inr, ◌==◌, Bool-cases,
  ◌&&◌,
}
use auto_cert_x.Text.{trim_space, trim_space_idem, to_lower}
use auto_cert_x.Dict.{lookup, lookup-insert_self}
use auto_cert_x.Job.Clock.{Time}
use auto_cert_x.Resource.Errors.{conflict}
use auto_cert_x.Resource.Scope.{Scope, validate}
use auto_cert_x.IssueWorkflow.State.{
  Workflow, CreateInput, Flows, request_key, stored_workflow, get_by_request,
}
use auto_cert_x.IssueWorkflow.Commands.{create}

-- A workflow that was created is what its request finds, however the id is padded, and creating it
-- again, at any time and under any new id, is refused as a conflict and changes nothing.
pub created_once :
    (lower : Char → Char) (s t : Flows) (scope : Scope) (input : CreateInput) (now later : Time)
    (fresh fresh₂ : String) {w : Workflow}
    → create lower s scope input now fresh ≡ (ok w, t)
    → (get_by_request t scope input.certificate_request_id ≡ ok w)
      × (create lower t scope input later fresh₂ ≡ (err conflict, t))
unfolding create get_by_request stored_workflow
created_once lower s t scope input now later fresh fresh₂ {w} h =
    elim (Result-cases (validate scope)) [
      | inr (e, bad) ↦ absurd (cc (rw bad at h))
      | inl (done, valid) ↦ elim (Bool-cases (trim_space input.certificate_request_id == "")) [
        | inl blank ↦ absurd (cc (rw (valid, blank) at h))
        | inr named ↦ elim (Bool-cases (trim_space input.ca_account_id == "")) [
          | inl blank ↦ absurd (cc (rw (valid, named, blank) at h))
          | inr account ↦
              elim (Bool-cases (
                not (to_lower lower (trim_space input.workflow_type) == "issue")
                && not (to_lower lower (trim_space input.workflow_type) == "renew"))) [
                  | inl unknown ↦ absurd (cc (rw (valid, named, account, unknown) at h))
                  | inr known ↦
                      elim (Option-cases (
                        lookup (request_key scope (trim_space input.certificate_request_id))
                          s.by_request)) [
                            | inr (id, taken) ↦
                                absurd (cc (rw (valid, named, account, known, taken) at h))
                            | inl free ↦
                                let made = rw (valid, named, account, known, free) at h in
                                let stored = ap (λ x. x.1) made in
                                rw (sym stored) (
                                  rw
                                      (
                                        valid,
                                        trim_space_idem input.certificate_request_id,
                                        lookup-insert_self,
                                        sym stored,
                                        stored_workflow,
                                      )
                                      (rw lookup-insert_self (ap (λ x. x.0) made)),
                                  rw (valid, named, account, known, lookup-insert_self) refl,
                                )
                          ]
                ]
        ]
      ]
    ]
