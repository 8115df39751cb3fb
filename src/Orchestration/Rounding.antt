-- ===== src/Orchestration/Rounding.antt =====
-- The rounds over the challenges, internal/workflow/service.go, keep what their calls keep.
use auto_cert_x.Prelude.{
  String, Bool, true, false, ◌==◌, if◌then◌else◌, ◌&&◌, List, [], ◌∷◌, Result, ok, err,
}
use auto_cert_x.Prelude.Exec.{Exec, Keeps, Keeps-pure, Keeps-bind, Keeps-outcome, keeps_rules}
use auto_cert_x.Resource.Scope.{Scope}
use auto_cert_x.CertificateRequest.State.{Request}
use auto_cert_x.IssueWorkflow.ChallengeStatus.{ChallengeStatus}
use auto_cert_x.IssueWorkflow.State.{Workflow, Challenge}
use auto_cert_x.Orchestration.Drivers.{Drivers, DriverError}
use auto_cert_x.Orchestration.World.{World}
use auto_cert_x.Orchestration.Rounds
use auto_cert_x.Orchestration.Keeping.{IsClosed, Called, Keeps-fail_from, Keeps-calling}

module _ (d : Drivers) (Q : d.Env → Type 0) (P : World d.Env → Type 0) (closed : IsClosed d Q)
    (k : Called d Q P) where
  module _ (scope : Scope) (r : Request) (w : Workflow) where
    pub Keeps-moving :
        (c : Challenge) (next : ChallengeStatus) → Keeps P (Rounds.moving d scope r w c next)
    unfolding Rounds.moving
    Keeps-moving c next = search (keeps_rules, k.moved)

    Keeps-present : (c : Challenge) → Keeps P (Rounds.present d scope r w c)
    unfolding Rounds.present
    Keeps-present c =
        search
          (
            keeps_rules,
            Keeps-moving,
            Keeps-calling d Q P k,
            closed.presents_http,
            closed.presents_txt,
          )
          depth 12

    pub Keeps-prepare_from :
        (status : ChallengeStatus) (c : Challenge)
        → Keeps P (Rounds.prepare_from d scope r w status c)
    unfolding Rounds.prepare_from
    Keeps-prepare_from ChallengeStatus.pending c = Keeps-present c
    Keeps-prepare_from _ c =
        search (keeps_rules, Keeps-moving, Keeps-calling d Q P k, closed.checks)

    Keeps-cleaned_up :
        (c : Challenge) (answer : Result DriverError Unit)
        → Keeps P (Rounds.cleaned_up d scope r w c answer)
    unfolding Rounds.cleaned_up
    Keeps-cleaned_up c (ok _) = search (keeps_rules, k.moved)
    Keeps-cleaned_up c (err _) = search (keeps_rules, k.moved)

    cleanup_call :
        (by_dns by_http : Bool) (c : Challenge) (e : d.Env)
        → Q e
        → Q
            ((if by_dns
                then d.cleanup_txt (Rounds.txt_record c)
                else if by_http
                then d.http_cleanup (Rounds.http_material c)
                else λ env. (ok tt, env))
              e).1
    cleanup_call true by_http c e q = closed.cleans_txt (Rounds.txt_record c) e q
    cleanup_call false true c e q = closed.cleans_http (Rounds.http_material c) e q
    cleanup_call false false c e q = q

    Keeps-cleanup : (c : Challenge) → Keeps P (Rounds.cleanup d scope r w c)
    unfolding Rounds.cleanup
    Keeps-cleanup c =
        Keeps-bind _ _
          (Keeps-outcome _ (
            k.driven _
              (cleanup_call (c.challenge_type == "dns-01") (c.challenge_type == "http-01") c)))
          (Keeps-cleaned_up c)

    Keeps-give_up : (c : Challenge) → Keeps P (Rounds.give_up d scope r w c)
    unfolding Rounds.give_up
    Keeps-give_up c =
        search
          (keeps_rules, Keeps-moving, Keeps-cleanup, k.updated, Keeps-fail_from d Q P k r.status)
          depth 12

    Keeps-polled : (c : Challenge) (status : String) → Keeps P (Rounds.polled d scope r w c status)
    unfolding Rounds.polled
    Keeps-polled c status = search (keeps_rules, Keeps-moving, Keeps-give_up)

    pub Keeps-verify_from :
        (status : ChallengeStatus) (c : Challenge)
        → Keeps P (Rounds.verify_from d scope r w status c)
    unfolding Rounds.verify_from
    Keeps-verify_from ChallengeStatus.verifying c =
        Keeps-bind _ _ (Keeps-calling d Q P k scope r w _ _ (closed.polls _)) (Keeps-polled c)
    Keeps-verify_from _ c =
        search (keeps_rules, Keeps-moving, Keeps-calling d Q P k, closed.notifies)

    pub Keeps-all_of :
        (step : Challenge → Exec (World d.Env) _ Bool) (challenges : List Challenge)
        → ((c : Challenge) → Keeps P (step c))
        → Keeps P (Rounds.all_of d scope r w step challenges)
    unfolding Rounds.all_of
    Keeps-all_of step [] each = search keeps_rules
    Keeps-all_of step (c ∷ later) each = Keeps-bind _ _ (each c) (λ passed.
        Keeps-bind _ _ (Keeps-all_of step later each) (λ others. Keeps-pure (passed && others)))
