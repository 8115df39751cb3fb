-- ===== src/IssueWorkflow/Commands.antt =====
-- internal/domain/issueworkflow/service.go: creating a workflow, and the methods that go through
-- `updateWorkflow`.
use Prim.Native.Char.{Char}
use auto_cert_x.Prelude.{
  String, Bool, not, ◌&&◌, Option, none, some, ok, err, ◌>>=◌, ◌>>◌, reject_if, ◌==◌,
}
use auto_cert_x.Text.{trim_space, to_lower}
use auto_cert_x.Dict.{lookup, insert}
use auto_cert_x.Job.Clock.{Time}
use auto_cert_x.Resource.Errors.{Answer, conflict, validation}
use auto_cert_x.Resource.Scope.{Scope, validate}
use auto_cert_x.IssueWorkflow.Status.{
  WorkflowStatus, created, order_pending, issued, failed, can_workflow_transition,
}
use auto_cert_x.IssueWorkflow.State.{Workflow, CreateInput, Flows, scoped, request_key}

abbrev pub commit : {A : Type 0} → Flows → Answer (A × Flows) → Answer A × Flows
commit s (ok (a, t)) = (ok a, t)
commit s (err e) = (err e, s)

abbrev is_some : {A : Type 0} → Option A → Bool
is_some none = Bool.false
is_some (some a) = Bool.true

abbrev pub put_workflow : Flows → Workflow → Flows
put_workflow s w = record s { by_id = insert w.id w s.by_id }

-- `Create`
unfoldable pub create :
    (Char → Char) → Flows → Scope → CreateInput → Time → String → Answer Workflow × Flows
unfolding validate
create lower s scope input now fresh = commit s (do
  validate scope
  let request_id = trim_space input.certificate_request_id
  let ca_account_id = trim_space input.ca_account_id
  let workflow_type = to_lower lower (trim_space input.workflow_type)
  reject_if (request_id == "") validation
  reject_if (ca_account_id == "") validation
  reject_if (not (workflow_type == "issue") && not (workflow_type == "renew")) validation
  reject_if (is_some (lookup (request_key scope request_id) s.by_request)) conflict
  let w : Workflow = record {
    id = fresh;
    scope = scope;
    certificate_request_id = request_id;
    ca_account_id = ca_account_id;
    workflow_type = workflow_type;
    status = created;
    order_url = "";
    finalize_url = "";
    csr_ref = "";
    certificate_ref = "";
    last_error_code = "";
    last_error_message = "";
    started_at = none;
    finished_at = none;
    created_at = now;
    updated_at = now;
  }
  ok (
    w,
    record (put_workflow s w) {
      by_request = insert (request_key scope request_id) fresh s.by_request;
    },
  ))

-- `updateWorkflow`: the record is written back under the id that was asked for.
unfoldable pub update_workflow :
    Flows → Scope → String → Time → (Workflow → Answer Workflow) → Answer Workflow × Flows
unfolding scoped validate
update_workflow s scope id now update = commit s (do
  validate scope
  w ← scoped s scope id
  changed ← update w
  let saved = record changed { updated_at = now }
  ok (saved, record s { by_id = insert id saved s.by_id }))

abbrev pub enter : WorkflowStatus → Workflow → Answer Workflow
enter next w = do
  reject_if (not (can_workflow_transition w.status next)) validation
  ok (record w { status = next })

unfoldable pub order_recorded : String → String → Time → Workflow → Answer Workflow
order_recorded order_url finalize_url now w = do
  moved ← enter order_pending w
  ok (record moved {
    order_url = trim_space order_url;
    finalize_url = trim_space finalize_url;
    started_at = some now;
    last_error_code = "";
    last_error_message = "";
  })

unfoldable pub transitioned : WorkflowStatus → Workflow → Answer Workflow
transitioned next w = do
  moved ← enter next w
  ok (record moved { last_error_code = ""; last_error_message = "" })

unfoldable pub error_recorded : String → String → Workflow → Answer Workflow
error_recorded code message w =
    ok (record w { last_error_code = trim_space code; last_error_message = trim_space message })

unfoldable pub failure_marked : String → String → Time → Workflow → Answer Workflow
failure_marked code message now w = do
  moved ← enter failed w
  ok (record moved {
    last_error_code = trim_space code;
    last_error_message = trim_space message;
    finished_at = some now;
  })

unfoldable pub issue_marked : String → Time → Workflow → Answer Workflow
issue_marked certificate_ref now w = do
  moved ← enter issued w
  ok (record moved {
    certificate_ref = trim_space certificate_ref;
    finished_at = some now;
    last_error_code = "";
    last_error_message = "";
  })

-- The five methods.
pub data Update : Type 0 where
  record_order : String → String → Update
  transition : WorkflowStatus → Update
  record_error : String → String → Update
  mark_failed : String → String → Update
  mark_issued : String → Update

unfoldable pub apply_update : Update → Time → Workflow → Answer Workflow
unfolding order_recorded transitioned error_recorded failure_marked issue_marked
apply_update (record_order order_url finalize_url) now w =
    order_recorded order_url finalize_url now w
apply_update (transition next) now w = transitioned next w
apply_update (record_error code message) now w = error_recorded code message w
apply_update (mark_failed code message) now w = failure_marked code message now w
apply_update (mark_issued certificate_ref) now w = issue_marked certificate_ref now w

unfoldable pub run_update : Flows → Scope → String → Time → Update → Answer Workflow × Flows
run_update s scope id now u = update_workflow s scope id now (apply_update u now)
