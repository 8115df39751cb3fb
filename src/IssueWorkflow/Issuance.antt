-- ===== src/IssueWorkflow/Issuance.antt =====
-- The one way to an issued certificate through internal/domain/issueworkflow/service.go.
use auto_cert_x.Prelude.{
  String, ◌≡◌, refl, sym, ◌∙◌, ap, Bool, true, false, none, some, List, [], ◌∷◌, inl, inr, arith,
  ◌==◌, eq_refl, if◌then◌else◌,
}
use auto_cert_x.Dict.{lookup}
use auto_cert_x.IssueWorkflow.Status.{
  WorkflowStatus, created, order_pending, challenge_pending, challenge_processing, challenge_valid,
  finalizing, issued, deploy_pending, deploying, deployed, partially_failed, failed, cancelled,
  other, can_workflow_transition,
}
use auto_cert_x.IssueWorkflow.State.{Workflow, Flows}
use auto_cert_x.IssueWorkflow.Progress.{Call, after, StatusStep, after-Advances}

abbrev same_status : WorkflowStatus → WorkflowStatus → Bool
same_status created created = true
same_status order_pending order_pending = true
same_status challenge_pending challenge_pending = true
same_status challenge_processing challenge_processing = true
same_status challenge_valid challenge_valid = true
same_status finalizing finalizing = true
same_status issued issued = true
same_status deploy_pending deploy_pending = true
same_status deploying deploying = true
same_status deployed deployed = true
same_status partially_failed partially_failed = true
same_status failed failed = true
same_status cancelled cancelled = true
same_status (other a) (other b) = a == b
same_status _ _ = false

same_status_refl : (s : WorkflowStatus) → same_status s s ≡ true
same_status_refl (other a) = eq_refl a
same_status_refl s = refl

-- the statuses between `from` and an issued certificate, the last first met last
abbrev to_issued : WorkflowStatus → List WorkflowStatus
to_issued created =
    order_pending ∷ challenge_pending ∷ challenge_processing ∷ challenge_valid ∷ finalizing ∷ issued
    ∷ []
to_issued order_pending =
    challenge_pending ∷ challenge_processing ∷ challenge_valid ∷ finalizing ∷ issued ∷ []
to_issued challenge_pending = challenge_processing ∷ challenge_valid ∷ finalizing ∷ issued ∷ []
to_issued challenge_processing = challenge_valid ∷ finalizing ∷ issued ∷ []
to_issued challenge_valid = finalizing ∷ issued ∷ []
to_issued finalizing = issued ∷ []
to_issued _ = []

-- a status from which a certificate may still be issued, or is
abbrev leads_to_issued : WorkflowStatus → Bool
leads_to_issued created = true
leads_to_issued order_pending = true
leads_to_issued challenge_pending = true
leads_to_issued challenge_processing = true
leads_to_issued challenge_valid = true
leads_to_issued finalizing = true
leads_to_issued issued = true
leads_to_issued _ = false

transition_to_issued :
    (from to : WorkflowStatus)
    → can_workflow_transition from to ≡ true
    → leads_to_issued to ≡ true
    → (leads_to_issued from ≡ true)
      × (to_issued from ≡ to ∷ to_issued to)
      × (same_status from to ≡ false)
unfolding can_workflow_transition
transition_to_issued from to h k = ground arith

-- The statuses of the workflow `k` after the calls, each change once.
abbrev pub changes : String → WorkflowStatus → Flows → List Call → List WorkflowStatus
changes k from s [] = []
changes k from s (c ∷ calls) = elim (lookup k (after s c).by_id) [
  | none ↦ changes k from (after s c) calls
  | some w ↦
      let later = changes k w.status (after s c) calls in
      if same_status from w.status then later else w.status ∷ later
]

abbrev pub after_all : Flows → List Call → Flows
after_all s [] = s
after_all s (c ∷ calls) = after_all (after s c) calls

issued_way :
    (k : String) (s : Flows) (calls : List Call) {w v : Workflow}
    → lookup k s.by_id ≡ some w
    → lookup k (after_all s calls).by_id ≡ some v
    → v.status ≡ issued
    → (leads_to_issued w.status ≡ true) × (changes k w.status s calls ≡ to_issued w.status)
issued_way k s [] {w} {v} at final end =
    let same : w.status ≡ issued = cc (at, final, end) in rw same (refl, refl)
issued_way k s (c ∷ calls) {w} at final end =
    let (u, next, step) = after-Advances s c k w at in
    let (leads, way) = issued_way k (after s c) calls next final end in
    elim step [
      | inl stays ↦
          let same : same_status w.status u.status ≡ true = rw stays (same_status_refl w.status) in
          (rw stays at leads, rw (next, same, changes) (way ∙ ap to_issued stays))
      | inr moves ↦
          let (leads_from, longer, differs) = transition_to_issued w.status u.status moves leads in
          (leads_from, rw (next, differs, changes) (ap (λ l. u.status ∷ l) way ∙ sym longer))
    ]

-- However updates, challenge creations and challenge updates are called, in whatever order and with
-- whatever arguments: when a workflow that was `created` ends `issued`, it went through exactly order_pending, challenge_pending,
-- challenge_processing, challenge_valid, finalizing and issued, in this order.
pub issued_by_all_stages :
    (k : String) (s : Flows) (calls : List Call) {w v : Workflow}
    → lookup k s.by_id ≡ some w
    → w.status ≡ created
    → lookup k (after_all s calls).by_id ≡ some v
    → v.status ≡ issued
    → changes k created s calls
      ≡ order_pending ∷ challenge_pending ∷ challenge_processing ∷ challenge_valid ∷ finalizing
        ∷ issued ∷ []
issued_by_all_stages k s calls {w} at first final end =
    let (leads, way) = issued_way k s calls at final end in
    ap (λ x. changes k x s calls) (sym first) ∙ way ∙ ap to_issued first

-- The statuses that no transition leaves.
abbrev pub is_final : WorkflowStatus → Bool
is_final issued = true
is_final failed = true
is_final cancelled = true
is_final _ = false

pub final_stays : (from to : WorkflowStatus) → is_final from ≡ true → StatusStep from to → to ≡ from
unfolding can_workflow_transition
final_stays from to final (inl same) = same
final_stays from to final (inr moved) = ground arith

-- A workflow that is issued, failed or cancelled is still there after any updates, challenge
-- creations and challenge updates, in that status.
pub final_forever :
    (k : String) (s : Flows) (calls : List Call) {w : Workflow}
    → lookup k s.by_id ≡ some w
    → is_final w.status ≡ true
    → (v : Workflow) × (lookup k (after_all s calls).by_id ≡ some v) × (v.status ≡ w.status)
final_forever k s [] {w} at final = (w, at, refl)
final_forever k s (c ∷ calls) {w} at final =
    let (u, next, step) = after-Advances s c k w at in
    let same = final_stays w.status u.status final step in
    let (v, last, kept) = final_forever k (after s c) calls next (rw same final) in
    (v, last, kept ∙ same)
