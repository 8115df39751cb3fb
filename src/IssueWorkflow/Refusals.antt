-- ===== src/IssueWorkflow/Refusals.antt =====
-- internal/domain/issueworkflow/service.go: what is refused of a workflow that is there.
use Prim.Native.Char.{Char}
use auto_cert_x.Prelude.{
  String, ◌≡◌, refl, sym, not, ◌&&◌, some, ok, err, ◌⊎◌, inl, inr, Bool-cases, Result-cases, ◌==◌,
}
use auto_cert_x.Text.{trim_space, trim_space_idem, to_lower}
use auto_cert_x.Dict.{lookup}
use auto_cert_x.Job.Clock.{Time}
use auto_cert_x.Resource.Errors.{ResourceError}
use auto_cert_x.Resource.Scope.{Scope, validate, equals}
use auto_cert_x.IssueWorkflow.Status.{WorkflowStatus, can_workflow_transition}
use auto_cert_x.IssueWorkflow.State.{
  Workflow, CreateInput, Flows, request_key, scoped, get_by_request, stored_workflow,
}
use auto_cert_x.IssueWorkflow.Commands as Flow

-- A request that has a workflow gets no other.
pub create-taken :
    (lower : Char → Char) (s : Flows) (scope : Scope) (input : CreateInput) (now : Time)
    (fresh id : String)
    → lookup (request_key scope input.certificate_request_id) s.by_request ≡ some id
    → (e : ResourceError) × (Flow.create lower s scope input now fresh ≡ (err e, s))
unfolding Flow.create
create-taken lower s scope input now fresh id taken =
    let taken' = rw (sym (trim_space_idem input.certificate_request_id)) at taken in
    elim (Result-cases (validate scope)) [
      | inr (e, bad) ↦ (e, rw bad refl)
      | inl (done, valid) ↦ elim (Bool-cases (trim_space input.certificate_request_id == "")) [
        | inl blank ↦ (ResourceError.validation, rw (valid, blank) refl)
        | inr named ↦ elim (Bool-cases (trim_space input.ca_account_id == "")) [
          | inl blank ↦ (ResourceError.validation, rw (valid, named, blank) refl)
          | inr account ↦
              elim (Bool-cases (
                not (to_lower lower (trim_space input.workflow_type) == "issue")
                && not (to_lower lower (trim_space input.workflow_type) == "renew"))) [
                  | inl unknown ↦
                      (ResourceError.validation, rw (valid, named, account, unknown) refl)
                  | inr typed ↦
                      (ResourceError.conflict, rw (valid, named, account, typed, taken') refl)
                ]
        ]
      ]
    ]

-- A workflow that is stored lies in the scope, or is refused.
scoped-stored :
    (s : Flows) (scope : Scope) (v : Workflow)
    → lookup v.id s.by_id ≡ some v
    → (scoped s scope v.id ≡ ok v) ⊎ (scoped s scope v.id ≡ err ResourceError.scope_mismatch)
unfolding scoped
scoped-stored s scope v stored = elim (Bool-cases (equals v.scope scope)) [
  | inl within ↦ inl (rw (scoped, stored, within) refl)
  | inr outside ↦ inr (rw (scoped, stored, outside) refl)
]

-- A workflow that its request leads to is found, where the scope is valid.
pub get_by_request-indexed :
    (s : Flows) (scope : Scope) (request_id : String) (v : Workflow)
    → lookup (request_key scope request_id) s.by_request ≡ some v.id
    → lookup v.id s.by_id ≡ some v
    → (get_by_request s scope request_id ≡ ok v)
      ⊎ ((e : ResourceError) × (get_by_request s scope request_id ≡ err e))
unfolding get_by_request
get_by_request-indexed s scope request_id v indexed stored = elim (Result-cases (validate scope)) [
  | inl (done, valid) ↦ inl (rw (valid, indexed, stored_workflow, stored) refl)
  | inr (e, bad) ↦ inr (e, rw bad refl)
]

-- The order of a workflow in `order_pending` is not recorded again.
pub record_order-refused :
    (s : Flows) (scope : Scope) (v : Workflow) (now : Time) (order_url finalize_url : String)
    → lookup v.id s.by_id ≡ some v
    → v.status ≡ WorkflowStatus.order_pending
    → (e : ResourceError) × (Flow.run_update s scope v.id now
          (Flow.record_order order_url finalize_url)
        ≡ (err e, s))
unfolding Flow.run_update Flow.update_workflow Flow.apply_update Flow.order_recorded
    can_workflow_transition
record_order-refused s scope v now order_url finalize_url stored pending =
    elim (Result-cases (validate scope)) [
      | inr (e, bad) ↦ (e, rw bad refl)
      | inl (done, valid) ↦ elim (scoped-stored s scope v stored) [
        | inl within ↦ (ResourceError.validation, rw (valid, within, pending) refl)
        | inr outside ↦ (ResourceError.scope_mismatch, rw (valid, outside) refl)
      ]
    ]
