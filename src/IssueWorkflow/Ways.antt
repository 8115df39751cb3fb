-- ===== src/IssueWorkflow/Ways.antt =====
-- The ways of a workflow over several calls of internal/domain/issueworkflow/service.go, `Create`
-- among them.
use Prim.Native.Char.{Char}
use auto_cert_x.Prelude.{
  String, ◌≡◌, ◌≢◌, refl, ◌∙◌, true, not, ◌&&◌, inl, inr, Result-cases, Bool-cases, Option-cases,
  ◌==◌, false_of_ne,
}
use auto_cert_x.Text.{trim_space, to_lower}
use auto_cert_x.Dict.{lookup, lookup-insert}
use auto_cert_x.Job.Clock.{Time}
use auto_cert_x.Resource.Scope.{Scope, validate}
use auto_cert_x.IssueWorkflow.Status.{WorkflowStatus}
use auto_cert_x.IssueWorkflow.State.{CreateInput, Flows, request_key}
use auto_cert_x.IssueWorkflow.Commands.{create}
use auto_cert_x.IssueWorkflow.Progress.{StatusStep}
use auto_cert_x.IssueWorkflow.Issuance.{is_final, final_stays}

-- The status after any number of permitted transitions.
pub data Way (s : WorkflowStatus) : WorkflowStatus → Type 0 where
  stay : {t : WorkflowStatus} → t ≡ s → Way s t
  go : {t u : WorkflowStatus} → Way s t → StatusStep t u → Way s u

-- No way leads out of a final status.
pub Way-is_final : (s t : WorkflowStatus) → Way s t → is_final s ≡ true → t ≡ s
Way-is_final s t (stay same) final = same
Way-is_final s u (go {t} way step) final =
    let same : t ≡ s = Way-is_final s t way final in final_stays t u (rw same final) step ∙ same

-- A workflow stays what it is when another is created, under another id.
pub create-lookup :
    (lower : Char → Char) (s : Flows) (scope : Scope) (input : CreateInput) (now : Time)
    (fresh k : String)
    → fresh ≢ k
    → lookup k (create lower s scope input now fresh).1.by_id ≡ lookup k s.by_id
unfolding create
create-lookup lower s scope input now fresh k new = elim (Result-cases (validate scope)) [
  | inr (e, bad) ↦ rw bad refl
  | inl (_, valid) ↦ elim (Bool-cases (trim_space input.certificate_request_id == "")) [
    | inl blank ↦ rw (valid, blank) refl
    | inr named ↦ elim (Bool-cases (trim_space input.ca_account_id == "")) [
      | inl blank ↦ rw (valid, named, blank) refl
      | inr account ↦
          elim (Bool-cases (
            not (to_lower lower (trim_space input.workflow_type) == "issue")
            && not (to_lower lower (trim_space input.workflow_type) == "renew"))) [
              | inl unknown ↦ rw (valid, named, account, unknown) refl
              | inr known ↦
                  elim (Option-cases (
                    lookup (request_key scope (trim_space input.certificate_request_id))
                      s.by_request)) [
                        | inr (id, taken) ↦ rw (valid, named, account, known, taken) refl
                        | inl free ↦
                            rw
                              (
                                valid,
                                named,
                                account,
                                known,
                                free,
                                lookup-insert,
                                false_of_ne fresh k new,
                              )
                              refl
                      ]
            ]
    ]
  ]
]
