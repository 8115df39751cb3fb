-- ===== src/Orchestration/Handlers.antt =====
-- Every handler of internal/workflow/service.go keeps what its calls keep.
use auto_cert_x.Prelude.{String, List, [], ◌∷◌, Result, ok, err}
use auto_cert_x.Prelude.Exec.{
  Keeps, Keeps-pure, Keeps-leave, Keeps-if, Keeps-bind, Keeps-or_leave, Keeps-outcome, keeps_rules,
}
use auto_cert_x.Job.Record.{Job}
use auto_cert_x.Resource.Errors.{Answer}
use auto_cert_x.Resource.Scope.{Scope}
use auto_cert_x.CertificateRequest.State.{Request}
use auto_cert_x.CertificateAsset.State.{Asset}
use auto_cert_x.IssueWorkflow.Status.{WorkflowStatus}
use auto_cert_x.IssueWorkflow.State.{Workflow, Challenge}
use auto_cert_x.Orchestration.Drivers.{Drivers, StartPayload, ContinuePayload}
use auto_cert_x.Orchestration.World.{World}
use auto_cert_x.Orchestration.Start
use auto_cert_x.Orchestration.Rounds
use auto_cert_x.Orchestration.Continue
use auto_cert_x.Orchestration.Submit.{handle}
use auto_cert_x.Orchestration.Keeping.{
  IsClosed, Kept, Keeps-run_from, Keeps-complete_from, Keeps-calling, Keeps-continue_job,
  Keeps-ensure_workflow,
}
use auto_cert_x.Orchestration.Rounding.{Keeps-prepare_from, Keeps-verify_from, Keeps-all_of}

module _ (d : Drivers) (Q : d.Env → Type 0) (P : World d.Env → Type 0) (closed : IsClosed d Q)
    (k : Kept d Q P) where
  module _ (scope : Scope) (r : Request) (w : Workflow) where
    Keeps-advance : (next : WorkflowStatus) → Keeps P (Rounds.advance d scope r w next)
    unfolding Rounds.advance
    Keeps-advance next = search (keeps_rules, k.calls.updated, Keeps-continue_job d Q P k)

    Keeps-pending :
        (challenges : List Challenge) → Keeps P (Rounds.continue_pending d scope r w challenges)
    unfolding Rounds.continue_pending
    Keeps-pending challenges =
        Keeps-bind _ _
          (Keeps-all_of d Q P closed k.calls scope r w _ challenges
            (λ c. Keeps-prepare_from d Q P closed k.calls scope r w c.status c))
          (λ ready. Keeps-if _ _ _ (Keeps-advance _) (Keeps-leave _))

    Keeps-processing :
        (challenges : List Challenge) → Keeps P (Rounds.continue_processing d scope r w challenges)
    unfolding Rounds.continue_processing
    Keeps-processing challenges =
        Keeps-bind _ _
          (Keeps-all_of d Q P closed k.calls scope r w _ challenges
            (λ c. Keeps-verify_from d Q P closed k.calls scope r w c.status c))
          (λ valid. Keeps-if _ _ _ (Keeps-advance _) (Keeps-leave _))

    Keeps-finalizing_from :
        (status : WorkflowStatus) → Keeps P (Continue.finalizing_from d scope r w status)
    unfolding Continue.finalizing_from
    Keeps-finalizing_from WorkflowStatus.challenge_valid = search (keeps_rules, k.calls.updated)
    Keeps-finalizing_from _ = search keeps_rules

    Keeps-tried :
        {A : Type 0} (code : String) (answer : Answer A)
        → Keeps P (Continue.tried d scope r w code answer)
    unfolding Continue.tried
    Keeps-tried code (ok _) = search keeps_rules
    Keeps-tried code (err _) = search (keeps_rules, k.calls.updated)

    Keeps-link_all :
        (asset : Asset) (ids : List String) → Keeps P (Continue.link_all d scope r w asset ids)
    unfolding Continue.link_all
    Keeps-link_all asset [] = search keeps_rules
    Keeps-link_all asset (id ∷ later) =
        Keeps-bind _ _ (Keeps-outcome _ (k.calls.linked scope r w asset id))
          (λ answer. Keeps-bind _ _ (Keeps-tried _ answer) (λ _. Keeps-link_all asset later))

    Keeps-complete_issued : Keeps P (Continue.complete_issued d scope r w)
    unfolding Continue.complete_issued
    Keeps-complete_issued =
        search
          (
            keeps_rules,
            k.calls.asked,
            k.calls.stored,
            Keeps-tried,
            Keeps-link_all,
            Keeps-complete_from d Q P k.calls r.status,
          )
          depth 12

  Keeps-finalizing :
      (scope : Scope) (r : Request) (w : Workflow)
      → Keeps P (Continue.continue_finalizing d scope r w)
  unfolding Continue.continue_finalizing
  Keeps-finalizing scope r w = Keeps-bind _ _ (Keeps-finalizing_from scope r w w.status) (λ moved.
      search
        (
          keeps_rules,
          Keeps-calling d Q P k.calls,
          closed.finalizes,
          closed.downloads,
          k.calls.updated,
          Keeps-continue_job d Q P k,
        )
        depth 12)

  Keeps-resume_from :
      (status : WorkflowStatus) (scope : Scope) (r : Request) (w : Workflow)
      (challenges : List Challenge)
      → Keeps P (Continue.resume_from d status scope r w challenges)
  unfolding Continue.resume_from
  Keeps-resume_from WorkflowStatus.challenge_pending scope r w challenges =
      Keeps-pending scope r w challenges
  Keeps-resume_from WorkflowStatus.challenge_processing scope r w challenges =
      Keeps-processing scope r w challenges
  Keeps-resume_from WorkflowStatus.challenge_valid scope r w challenges = Keeps-finalizing scope r w
  Keeps-resume_from WorkflowStatus.finalizing scope r w challenges = Keeps-finalizing scope r w
  Keeps-resume_from WorkflowStatus.issued scope r w challenges = Keeps-complete_issued scope r w
  Keeps-resume_from _ scope r w challenges = search keeps_rules

  Keeps-checked_continue :
      (p : Result String ContinuePayload) → Keeps P (Continue.checked_continue d p)
  unfolding Continue.checked_continue
  Keeps-checked_continue (err e) = search keeps_rules
  Keeps-checked_continue (ok p) = search keeps_rules

  Keeps-process_continue : (j : Job) → Keeps P (Continue.process_continue d j)
  unfolding Continue.process_continue
  Keeps-process_continue j = Keeps-bind _ _ (Keeps-checked_continue _) (λ p.
      Keeps-bind _ _ (Keeps-or_leave _ _ (k.calls.asked _)) (λ r.
        Keeps-bind _ _ (Keeps-or_leave _ _ (k.calls.asked _)) (λ w.
          Keeps-bind _ _ (Keeps-or_leave _ _ (k.calls.asked _))
            (λ challenges. Keeps-resume_from w.status _ r w challenges))))

  Keeps-checked_start : (p : Result String StartPayload) → Keeps P (Start.checked_start d p)
  unfolding Start.checked_start
  Keeps-checked_start (err e) = search keeps_rules
  Keeps-checked_start (ok p) = search keeps_rules

  Keeps-open_order :
      (scope : Scope) (r : Request) (w : Workflow) → Keeps P (Start.open_order d scope r w)
  unfolding Start.open_order
  Keeps-open_order scope r w =
      search
        (
          keeps_rules,
          k.calls.asked,
          Keeps-calling d Q P k.calls,
          closed.orders,
          k.calls.updated,
          k.calls.challenged,
          Keeps-continue_job d Q P k,
        )
        depth 14

  Keeps-process_start : (j : Job) → Keeps P (Start.process_start d j)
  unfolding Start.process_start
  Keeps-process_start j = Keeps-bind _ _ (Keeps-checked_start _) (λ p.
      Keeps-bind _ _ (Keeps-or_leave _ _ (k.calls.asked _)) (λ r.
        Keeps-bind _ _ (Keeps-or_leave _ _ (Keeps-run_from d Q P k.calls r.status _ r)) (λ _.
          Keeps-bind _ _ (Keeps-or_leave _ _ (Keeps-ensure_workflow d Q P k.calls _ r)) (λ found.
            Keeps-if _ _ _
              (Keeps-bind _ _
                (Keeps-or_leave _ _ (Keeps-continue_job d Q P k r found.0 (found.0).status))
                (λ _. Keeps-pure tt))
              (Keeps-open_order (Start.job_scope j) r found.0)))))

  -- What each call of the handlers keeps is kept by the handling of every job.
  pub Keeps-handle : (j : Job) → Keeps P (handle d j)
  unfolding handle
  Keeps-handle j = search (keeps_rules, Keeps-process_start, Keeps-process_continue)
