-- ===== src/Orchestration/Stuck.antt =====
-- Where internal/workflow/service.go does not get on after a step was interrupted.
use auto_cert_x.Prelude.{
  String, ◌≡◌, refl, sym, ap, subst, Bool, true, false, List, [], ◌∷◌, Result, ok, err, inl, inr,
  if◌then◌else◌,
}
use auto_cert_x.Prelude.Exec.{Exec, pure, leave, or_leave}
use auto_cert_x.Prelude.Runs.{Runs, After, Runs-bind, Runs-bind_known, Keeps-Runs}
use auto_cert_x.Prelude.Membership.{IsIn}
use auto_cert_x.Job.Record.{Job}
use auto_cert_x.JobStore.State.{Store}
use auto_cert_x.Resource.Errors.{Answer}
use auto_cert_x.Resource.Scope.{Scope}
use auto_cert_x.CertificateRequest.State.{Request}
use auto_cert_x.CertificateRequest.Commands
use auto_cert_x.IssueWorkflow.Status.{WorkflowStatus}
use auto_cert_x.IssueWorkflow.ChallengeStatus.{ChallengeStatus}
use auto_cert_x.IssueWorkflow.State
use auto_cert_x.IssueWorkflow.State.{Workflow, Challenge, Flows}
use auto_cert_x.IssueWorkflow.Challenges.{list_challenges}
use auto_cert_x.Orchestration.Drivers.{Drivers, ContinuePayload}
use auto_cert_x.Orchestration.World.{
  World, driving, reading_clock, asking, asking_jobs, on_requests, on_flows, on_assets, on_domains,
}
use auto_cert_x.Orchestration.Steps.{
  continue_job_type, transition_request, update_workflow, move_challenge, create_workflow, or_fail,
}
use auto_cert_x.Orchestration.Start.{job_scope, create_challenges}
use auto_cert_x.Orchestration.Rounds.{prepare_from, prepare, all_of, continue_pending}
use auto_cert_x.Orchestration.Continue.{
  link, store_asset, resume_from, process_continue, checked_continue,
}
use auto_cert_x.Orchestration.Submit.{handle, process_job}
use auto_cert_x.Orchestration.Keeping.{Called, unit-IsClosed}
use auto_cert_x.Orchestration.Rounding.{Keeps-prepare_from}

-- nothing was scheduled: the jobs are those of before
abbrev pub JobsAre : (d : Drivers) → Store → World d.Env → Type 0
JobsAre d jobs w = w.jobs ≡ jobs

-- Every call but scheduling leaves the jobs alone.
pub jobs-Called : (d : Drivers) (jobs : Store) → Called d (λ e. Unit) (JobsAre d jobs)
unfolding driving reading_clock asking asking_jobs on_requests on_flows on_assets on_domains
    transition_request update_workflow move_challenge create_workflow create_challenges link
    store_asset
jobs-Called d jobs = record {
  driven = λ call closed. record { at = λ s h. h };
  timed = record { at = λ s h. h };
  asked = λ question. record { at = λ s h. h };
  asked_jobs = λ question. record { at = λ s h. h };
  transitioned = λ scope id next. record { at = λ s h. h };
  created = λ scope r. record { at = λ s h. h };
  updated = λ scope id u. record { at = λ s h. h };
  challenged = λ scope id challenges. record { at = λ s h. h };
  moved = λ scope id challenge_id next. record { at = λ s h. h };
  stored = λ scope r w ids. record { at = λ s h. h };
  linked = λ scope r w asset id. record { at = λ s h. h };
}

-- some challenge is in `presenting`
abbrev pub HasPresenting : List Challenge → Type 0
HasPresenting challenges =
    (c : Challenge) × IsIn c challenges × (c.status ≡ ChallengeStatus.presenting)

module _ (d : Drivers) (jobs : Store) where
  abbrev Same : World d.Env → Type 0
  Same = JobsAre d jobs

  -- an action that schedules nothing and does not come to its end
  abbrev Ends : {E A : Type 0} → Exec (World d.Env) E A → Type 0
  Ends act = Runs Same Same (λ a t. ⊥) act

  module _ (scope : Scope) (r : Request) (w : Workflow) where
    presenting-Ends :
        (c : Challenge) → c.status ≡ ChallengeStatus.presenting → Ends (prepare d scope r w c)
    unfolding prepare_from leave
    presenting-Ends c presenting = rw presenting (record { at = λ s h. h })

    prepare-Runs : (c : Challenge) → Runs Same Same (λ b t. Same t) (prepare d scope r w c)
    prepare-Runs c =
        Keeps-Runs (prepare d scope r w c) (λ s h. h)
          (Keeps-prepare_from d (λ e. Unit) Same (unit-IsClosed d) (jobs-Called d jobs) scope r w
            c.status c)

    all_of-Ends :
        (challenges : List Challenge)
        → HasPresenting challenges
        → Ends (all_of d scope r w (prepare d scope r w) challenges)
    unfolding all_of
    all_of-Ends [] (c, there, presenting) = absurd there
    all_of-Ends (x ∷ later) (c, inl e, presenting) =
        Runs-bind {Q = λ b t. ⊥} (prepare d scope r w x) _
          (presenting-Ends x
            (subst (λ (y : Challenge). y.status ≡ ChallengeStatus.presenting) (sym e) presenting))
          (λ b. record { at = λ s h. absurd h })
    all_of-Ends (x ∷ later) (c, inr there, presenting) =
        Runs-bind {Q = λ b t. Same t} (prepare d scope r w x) _ (prepare-Runs x) (λ passed.
          Runs-bind {Q = λ b t. ⊥} (all_of d scope r w (prepare d scope r w) later) _
            (all_of-Ends later (c, there, presenting)) (λ others. record { at = λ s h. absurd h }))

    pending-Ends :
        (challenges : List Challenge)
        → HasPresenting challenges
        → Ends (continue_pending d scope r w challenges)
    unfolding continue_pending
    pending-Ends challenges stuck =
        Runs-bind {Q = λ b t. ⊥} (all_of d scope r w (prepare d scope r w) challenges) _
          (all_of-Ends challenges stuck) (λ ready. record { at = λ s h. absurd h })

-- Code that does not come to its end leaves the jobs alone.
pub Ends-jobs :
    {E A S : Type 0} (J : S → Type 0) (r : Result E A) (t : S) → After J (λ a t. ⊥) r t → J t
Ends-jobs J (ok a) t h = absurd h
Ends-jobs J (err e) t h = h

module _ (d : Drivers) (w : World d.Env) where
  abbrev pub Start : World d.Env → Type 0
  Start t = t ≡ w

  -- an action that leaves the jobs alone where it leaves, and else gives `a` and changes nothing
  abbrev pub Gives : {E A : Type 0} → A → Exec (World d.Env) E A → Type 0
  Gives a act = Runs (JobsAre d w.jobs) Start (λ b t. (b ≡ a) × Start t) act

  pub asking-Gives :
      {A : Type 0} (code : String) (question : World d.Env → Answer A) (a : A)
      → question w ≡ ok a
      → Gives a (or_fail d code (asking d question))
  unfolding asking or_fail or_leave
  asking-Gives {A} code question a answered = record {
    at = λ s start.
        subst
          (λ x.
            After (JobsAre d w.jobs) (λ b t. (b ≡ a) × Start t)
              (or_fail d code (asking d question) x).0 (or_fail d code (asking d question) x).1)
          (sym start) (rw answered (refl, refl));
  }

  pub if-Gives : {E A : Type 0} (b : Bool) (e : E) (a : A) → Gives a (if b then leave e else pure a)
  unfolding leave pure
  if-Gives true e a = record { at = λ s start. ap (λ (t : World d.Env). t.jobs) start }
  if-Gives false e a = record { at = λ s start. (refl, start) }

  payload-Gives :
      (p : ContinuePayload) (raw : Result String ContinuePayload)
      → raw ≡ ok p
      → Gives p (checked_continue d raw)
  unfolding checked_continue
  payload-Gives p raw decoded = rw decoded (if-Gives _ _ p)

-- Where a continue job reaches a workflow in `challenge_pending` that has a challenge in `presenting`, at
-- whatever place of the list, the job schedules no job that goes on with the workflow, and no other,
-- whatever the drivers answer: the jobs stay as they were.
pub presenting_stuck :
    (d : Drivers) (j : Job) (w : World d.Env) (p : ContinuePayload) (r : Request) (v : Workflow)
    (challenges : List Challenge)
    → j.job_type ≡ continue_job_type
    → d.decode_continue j.payload ≡ ok p
    → Commands.get w.requests (job_scope j) p.request_id ≡ ok r
    → State.get w.flows (job_scope j) p.workflow_id ≡ ok v
    → v.status ≡ WorkflowStatus.challenge_pending
    → list_challenges w.flows (job_scope j) v.id ≡ ok challenges
    → HasPresenting challenges
    → (process_job d j w).1.jobs ≡ w.jobs
unfolding process_job handle process_continue resume_from
presenting_stuck d j w p r v challenges going_on decoded asked found pending listed stuck =
    rw going_on (
      Ends-jobs (JobsAre d w.jobs) _ _ (
        (Runs-bind_known p _ _ (payload-Gives d w p (d.decode_continue j.payload) decoded) (
            Runs-bind_known r _ _ (asking-Gives d w _ _ r asked) (
              Runs-bind_known v _ _ (asking-Gives d w _ _ v found) (
                Runs-bind_known challenges _ _ (asking-Gives d w _ _ challenges listed) (
                  rw pending (record {
                    at = λ s start.
                        (pending-Ends d w.jobs (job_scope j) r v challenges stuck).at s
                          (ap (λ (t : World d.Env). t.jobs) start);
                  })))))).at
          w refl))
