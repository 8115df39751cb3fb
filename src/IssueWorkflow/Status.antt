-- ===== src/IssueWorkflow/Status.antt =====
-- internal/domain/issueworkflow/service.go: the statuses of a workflow and of a challenge, and the
-- transitions between them. A status is a string in the source: `other` is any text that is none
-- of the constants.
use auto_cert_x.Prelude.{String, Bool, true, false}

pub data WorkflowStatus : Type 0 where
  created order_pending challenge_pending challenge_processing challenge_valid : WorkflowStatus
  finalizing issued deploy_pending deploying deployed partially_failed : WorkflowStatus
  failed cancelled : WorkflowStatus
  other : String → WorkflowStatus

unfoldable pub can_workflow_transition : WorkflowStatus → WorkflowStatus → Bool
can_workflow_transition created order_pending = true
can_workflow_transition created cancelled = true
can_workflow_transition created failed = true
can_workflow_transition order_pending challenge_pending = true
can_workflow_transition order_pending failed = true
can_workflow_transition challenge_pending challenge_processing = true
can_workflow_transition challenge_pending cancelled = true
can_workflow_transition challenge_pending failed = true
can_workflow_transition challenge_processing challenge_valid = true
can_workflow_transition challenge_processing failed = true
can_workflow_transition challenge_valid finalizing = true
can_workflow_transition finalizing issued = true
can_workflow_transition finalizing failed = true
can_workflow_transition _ _ = false
