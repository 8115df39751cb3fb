-- ===== src/IssueWorkflow/Progress.antt =====
-- The way of a workflow through internal/domain/issueworkflow/service.go.
use Prim.Native.Char.{Char}
use auto_cert_x.Prelude.{
  ℕ, String, ◌≡◌, refl, subst, Bool, true, false, some, List, ◌⊎◌, inl, inr, ok, Result-cases,
  arith, Bool-cases, if◌then◌else◌, ◌==◌, eq_of_true,
}
use auto_cert_x.Dict.{lookup, insert, lookup-insert, lookup_list}
use auto_cert_x.Job.Clock.{Time}
use auto_cert_x.Resource.Scope.{Scope, validate}
use auto_cert_x.IssueWorkflow.Status.{WorkflowStatus, challenge_pending, can_workflow_transition}
use auto_cert_x.IssueWorkflow.ChallengeStatus.{ChallengeStatus}
use auto_cert_x.IssueWorkflow.State.{Workflow, ChallengeInput, Flows, scoped}
use auto_cert_x.IssueWorkflow.Commands.{
  Update, record_order, transition, record_error, mark_failed, mark_issued, apply_update, enter,
  update_workflow, run_update, order_recorded, transitioned, error_recorded, failure_marked,
  issue_marked,
}
use auto_cert_x.IssueWorkflow.Challenges.{
  is_empty, new_challenges, ensure_challenges, update_in, update_challenge_status,
}

-- every update but `RecordError` enters a status
abbrev enters : Update → Bool
enters (record_error code message) = false
enters _ = true

apply_update_effect :
    (u : Update) (now : Time) (w : Workflow) {v : Workflow}
    → apply_update u now w ≡ ok v
    → if enters u then can_workflow_transition w.status v.status ≡ true else v.status ≡ w.status
unfolding apply_update order_recorded transitioned error_recorded failure_marked issue_marked
apply_update_effect (record_order order_url finalize_url) now w h = ground arith
apply_update_effect (transition next) now w h = ground arith
apply_update_effect (record_error code message) now w h = ground arith
apply_update_effect (mark_failed code message) now w h = ground arith
apply_update_effect (mark_issued certificate_ref) now w h = ground arith

-- The status stays, or moves along a permitted transition.
abbrev pub StatusStep : WorkflowStatus → WorkflowStatus → Type 0
StatusStep from to = (to ≡ from) ⊎ (can_workflow_transition from to ≡ true)

apply_update-StatusStep :
    (u : Update) (now : Time) (w : Workflow) {v : Workflow}
    → apply_update u now w ≡ ok v
    → StatusStep w.status v.status
apply_update-StatusStep u now w h = ground (arith, apply_update_effect u now w h)

enter-StatusStep :
    (next : WorkflowStatus) (w : Workflow) {v : Workflow}
    → enter next w ≡ ok v
    → StatusStep w.status v.status
enter-StatusStep next w h = ground arith

-- The workflows after a call: untouched, or one of them rewritten by a step of its status.
abbrev pub Rewritten : String → Flows → Flows → Type 0
Rewritten id s t =
    (t.by_id ≡ s.by_id)
    ⊎ ((w v : Workflow) × (lookup id s.by_id ≡ some w)
        × StatusStep w.status v.status
        × (t.by_id ≡ insert id v s.by_id))

scoped-lookup :
    (s : Flows) (scope : Scope) (id : String) {w : Workflow}
    → scoped s scope id ≡ ok w
    → lookup id s.by_id ≡ some w
unfolding scoped
scoped-lookup s scope id h = ground arith

run_update-Rewritten :
    (s : Flows) (scope : Scope) (id : String) (now : Time) (u : Update)
    → Rewritten id s (run_update s scope id now u).1
unfolding run_update update_workflow
run_update-Rewritten s scope id now u = elim (Result-cases (validate scope)) [
  | inr (e, invalid) ↦ inl (rw invalid refl)
  | inl (done, valid) ↦ elim (Result-cases (scoped s scope id)) [
    | inr (e, missing) ↦ inl (rw (valid, missing) refl)
    | inl (w, found) ↦ elim (Result-cases (apply_update u now w)) [
      | inr (e, refused) ↦ inl (rw (valid, found, refused) refl)
      | inl (v, changed) ↦ inr (
        w,
        record v { updated_at = now },
        scoped-lookup s scope id found,
        apply_update-StatusStep u now w changed,
        rw (valid, found, changed) refl,
      )
    ]
  ]
]

first_challenges-Rewritten :
    (lower : Char → Char) (s : Flows) (scope : Scope) (id : String) (inputs : List ChallengeInput)
    (now : Time) (fresh : ℕ → String) (w : Workflow)
    → is_empty inputs ≡ false
    → scoped s scope id ≡ ok w
    → is_empty (lookup_list id s.challenges) ≡ true
    → Rewritten id s (ensure_challenges lower s scope id inputs now fresh).1
unfolding ensure_challenges
first_challenges-Rewritten lower s scope id inputs now fresh w given found first =
    elim (Result-cases (enter challenge_pending w)) [
      | inr (e, refused) ↦ inl (rw (given, found, first, refused) refl)
      | inl (moved, entered) ↦
          elim (Result-cases (new_challenges lower scope id now fresh 0 inputs)) [
            | inr (e, bad) ↦ inl (rw (given, found, first, entered, bad) refl)
            | inl (items, made) ↦ inr (
              w,
              record moved { updated_at = now; last_error_code = ""; last_error_message = "" },
              scoped-lookup s scope id found,
              enter-StatusStep challenge_pending w entered,
              rw (given, found, first, entered, made) refl,
            )
          ]
    ]

ensure_challenges-Rewritten :
    (lower : Char → Char) (s : Flows) (scope : Scope) (id : String) (inputs : List ChallengeInput)
    (now : Time) (fresh : ℕ → String)
    → Rewritten id s (ensure_challenges lower s scope id inputs now fresh).1
unfolding ensure_challenges
ensure_challenges-Rewritten lower s scope id inputs now fresh =
    elim (Bool-cases (is_empty inputs)) [
      | inl none_given ↦ inl (rw none_given refl)
      | inr given ↦ elim (Result-cases (scoped s scope id)) [
        | inr (e, missing) ↦ inl (rw (given, missing) refl)
        | inl (w, found) ↦ elim (Bool-cases (is_empty (lookup_list id s.challenges))) [
          | inr existing ↦ inl (rw (given, found, existing) refl)
          | inl first ↦
              first_challenges-Rewritten lower s scope id inputs now fresh w given found first
        ]
      ]
    ]

update_challenge_status-Rewritten :
    (s : Flows) (scope : Scope) (id challenge_id : String) (next : ChallengeStatus) (now : Time)
    → Rewritten id s (update_challenge_status s scope id challenge_id next now).1
unfolding update_challenge_status
update_challenge_status-Rewritten s scope id challenge_id next now =
    elim (Result-cases (scoped s scope id)) [
      | inr (e, missing) ↦ inl (rw missing refl)
      | inl (w, found) ↦
          elim (Result-cases (update_in (lookup_list id s.challenges) challenge_id next now)) [
            | inr (e, refused) ↦ inl (rw (found, refused) refl)
            | inl (moved, updated) ↦ inl (rw (found, updated) refl)
          ]
    ]

-- A call of a method that works on a workflow that is there; `Create` draws a new id.
pub data Call : Type 0 where
  updating : Scope → String → Time → Update → Call
  ensuring : (Char → Char) → Scope → String → List ChallengeInput → Time → (ℕ → String) → Call
  moving : Scope → String → String → ChallengeStatus → Time → Call

unfoldable pub after : Flows → Call → Flows
after s (updating scope id now u) = (run_update s scope id now u).1
after s (ensuring lower scope id inputs now fresh) =
    (ensure_challenges lower s scope id inputs now fresh).1
after s (moving scope id challenge_id next now) =
    (update_challenge_status s scope id challenge_id next now).1

-- What a call does to the workflow under any id.
abbrev pub Advances : String → Flows → Flows → Type 0
Advances k s t =
    (w : Workflow)
    → lookup k s.by_id ≡ some w
    → (v : Workflow) × (lookup k t.by_id ≡ some v) × StatusStep w.status v.status

Rewritten-Advances : (id k : String) (s t : Flows) → Rewritten id s t → Advances k s t
Rewritten-Advances id k s t (inl same) w at = (w, rw same at, inl refl)
Rewritten-Advances id k s t (inr (u, v, held, step, rewritten)) w at = elim (Bool-cases (id == k)) [
  | inl here ↦
      let same : id ≡ k = eq_of_true id k here in
      let one : u ≡ w = cc (held, at, same) in
      (
        v,
        rw (rewritten, lookup-insert id k v s.by_id, here) refl,
        subst (λ x. StatusStep x.status v.status) one step,
      )
  | inr elsewhere ↦ (w, rw (rewritten, lookup-insert id k v s.by_id, elsewhere) at, inl refl)
]

pub after-Advances : (s : Flows) (c : Call) (k : String) → Advances k s (after s c)
unfolding after
after-Advances s (updating scope id now u) k =
    Rewritten-Advances id k s (run_update s scope id now u).1
      (run_update-Rewritten s scope id now u)
after-Advances s (ensuring lower scope id inputs now fresh) k =
    Rewritten-Advances id k s (ensure_challenges lower s scope id inputs now fresh).1
      (ensure_challenges-Rewritten lower s scope id inputs now fresh)
after-Advances s (moving scope id challenge_id next now) k =
    Rewritten-Advances id k s (update_challenge_status s scope id challenge_id next now).1
      (update_challenge_status-Rewritten s scope id challenge_id next now)
