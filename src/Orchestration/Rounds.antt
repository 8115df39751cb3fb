-- ===== src/Orchestration/Rounds.antt =====
-- internal/workflow/service.go: `continueChallengePending` and `continueChallengeProcessing`, the rounds
-- over the challenges of a workflow.
use Prim.Native.String.{◌++◌}
use auto_cert_x.Prelude.{
  String, Bool, true, false, ◌&&◌, List, [], ◌∷◌, Result, ok, err, ◌==◌, if◌then◌else◌,
}
use auto_cert_x.Prelude.Exec.{pure, leave, ◌>>=◌, ◌>>◌, outcome, ignore}
use auto_cert_x.Resource.Scope.{Scope}
use auto_cert_x.CertificateRequest.State.{Request}
use auto_cert_x.IssueWorkflow.Status.{WorkflowStatus}
use auto_cert_x.IssueWorkflow.ChallengeStatus.{ChallengeStatus}
use auto_cert_x.IssueWorkflow.State.{Workflow, Challenge}
use auto_cert_x.IssueWorkflow.Commands.{transition, mark_failed}
use auto_cert_x.Orchestration.Drivers.{
  Drivers, DriverError, AuthorizationInput, TxtRecord, Http01Material,
}
use auto_cert_x.Orchestration.World.{driving}
use auto_cert_x.Orchestration.Steps.{
  done, failure, retry, Handling, fail_from, or_fail, or_schedule_failure, update_workflow,
  move_challenge, ensure_request_failed, ensure_continue_job, calling,
}

abbrev pub txt_record : Challenge → TxtRecord
txt_record c = record { record_name = c.dns_record_name; record_value = c.dns_record_value }

abbrev pub http_material : Challenge → Http01Material
http_material c = record {
  identifier = c.identifier;
  token = c.token;
  key_authorization = c.key_authorization;
  path = c.http_path;
}

abbrev pub authorization : Workflow → Challenge → AuthorizationInput
authorization w c = record {
  order_url = w.order_url;
  identifier = c.identifier;
  challenge_type = c.challenge_type;
}

abbrev pub text_of_challenge : ChallengeStatus → String
text_of_challenge ChallengeStatus.pending = "pending"
text_of_challenge ChallengeStatus.presenting = "presenting"
text_of_challenge ChallengeStatus.presented = "presented"
text_of_challenge ChallengeStatus.propagating = "propagating"
text_of_challenge ChallengeStatus.ready = "ready"
text_of_challenge ChallengeStatus.verifying = "verifying"
text_of_challenge ChallengeStatus.valid = "valid"
text_of_challenge ChallengeStatus.invalid = "invalid"
text_of_challenge ChallengeStatus.cleanup_pending = "cleanup_pending"
text_of_challenge ChallengeStatus.cleaned = "cleaned"
text_of_challenge ChallengeStatus.cleanup_failed = "cleanup_failed"
text_of_challenge (ChallengeStatus.other s) = s

module _ (d : Drivers) where
  open d use {Env, quoted}

  module _ (scope : Scope) (r : Request) (w : Workflow) where
    -- `UpdateChallengeStatus`, and the failure where it is refused
    unfoldable pub moving : Challenge → ChallengeStatus → Handling d Unit
    unfolding move_challenge
    moving c next =
        or_fail d "WORKFLOW_CHALLENGE_STATE_FAILED" (move_challenge d scope w.id c.id next)
        >> pure tt

    abbrev unexpected : {A : Type 0} → Challenge → Handling d A
    unexpected c = leave (
        failure "WORKFLOW_CHALLENGE_STATE_INVALID"
          ("unexpected challenge status " ++ quoted (text_of_challenge c.status)))

    -- Presenting a pending challenge; whether it is ready at once.
    unfoldable pub present : Challenge → Handling d Bool
    unfolding moving calling
    present c =
        moving c ChallengeStatus.presenting
        >> (if c.challenge_type == "http-01"
            then (do
              calling d scope r w "CHALLENGE_PRESENT_FAILED" (d.http_present (http_material c))
              moving c ChallengeStatus.presented
              moving c ChallengeStatus.ready
              pure true)
            else if c.challenge_type == "dns-01"
            then (do
              calling d scope r w "CHALLENGE_PRESENT_FAILED" (d.present_txt (txt_record c))
              moving c ChallengeStatus.presented
              moving c ChallengeStatus.propagating
              pure false)
            else pure true)

    -- One round of the loop of `continueChallengePending`; whether the challenge is ready.
    unfoldable pub prepare_from : ChallengeStatus → Challenge → Handling d Bool
    unfolding present moving calling
    prepare_from ChallengeStatus.pending c = present c
    prepare_from ChallengeStatus.presented c =
        if c.challenge_type == "dns-01"
        then moving c ChallengeStatus.propagating >> pure false
        else pure true
    prepare_from ChallengeStatus.propagating c =
        calling d scope r w "DNS_PROPAGATION_FAILED" (d.check_propagation (txt_record c))
        >>= (λ ready. if ready then moving c ChallengeStatus.ready >> pure true else pure false)
    prepare_from ChallengeStatus.ready c = pure true
    prepare_from _ c = unexpected c

    abbrev pub prepare : Challenge → Handling d Bool
    prepare c = prepare_from c.status c

    -- `cleanupChallenge` takes the scope and the workflow from the challenge.
    unfoldable pub cleaned_up : Challenge → Result DriverError Unit → Handling d Unit
    unfolding move_challenge
    cleaned_up c (ok _) =
        ignore (move_challenge d c.scope c.issue_workflow_id c.id ChallengeStatus.cleaned)
    cleaned_up c (err e) =
        ignore (move_challenge d c.scope c.issue_workflow_id c.id ChallengeStatus.cleanup_failed)

    unfoldable pub cleanup : Challenge → Handling d Unit
    unfolding cleaned_up
    cleanup c =
        outcome (
          driving d (
            if c.challenge_type == "dns-01"
            then d.cleanup_txt (txt_record c)
            else if c.challenge_type == "http-01"
            then d.http_cleanup (http_material c)
            else λ env. (ok tt, env)))
        >>= cleaned_up c

    -- An invalid authorization ends the issuance.
    unfoldable pub give_up : Challenge → Handling d Bool
    unfolding moving cleanup update_workflow fail_from
    give_up c = do
      moving c ChallengeStatus.invalid
      moving c ChallengeStatus.cleanup_pending
      cleanup c
      or_fail d "WORKFLOW_STATE_FAILED" (
          update_workflow d scope w.id
            (mark_failed "CHALLENGE_VERIFY_FAILED" "challenge verification failed"))
      or_fail d "REQUEST_STATE_INVALID" (ensure_request_failed d scope r)
      leave done

    -- One round of the loop of `continueChallengeProcessing`; whether the challenge is valid.
    unfoldable pub polled : Challenge → String → Handling d Bool
    unfolding moving give_up
    polled c status =
        if status == "pending"
        then pure false
        else if status == "valid"
        then moving c ChallengeStatus.valid >> pure true
        else if status == "invalid"
        then give_up c
        else leave (failure "CHALLENGE_VERIFY_FAILED" "unknown authorization status")

    unfoldable pub verify_from : ChallengeStatus → Challenge → Handling d Bool
    unfolding moving calling polled
    verify_from ChallengeStatus.ready c =
        calling d scope r w "CHALLENGE_VERIFY_FAILED" (d.notify_challenge_ready (authorization w c))
        >> moving c ChallengeStatus.verifying
        >> pure false
    verify_from ChallengeStatus.verifying c =
        calling d scope r w "CHALLENGE_VERIFY_FAILED" (d.poll_authorization (authorization w c))
        >>= polled c
    verify_from ChallengeStatus.valid c = pure true
    verify_from _ c = unexpected c

    abbrev pub verify : Challenge → Handling d Bool
    verify c = verify_from c.status c

    -- The loop: whether all challenges answered yes.
    unfoldable pub all_of : (Challenge → Handling d Bool) → List Challenge → Handling d Bool
    all_of step [] = pure true
    all_of step (c ∷ later) = do
      passed ← step c
      others ← all_of step later
      pure (passed && others)

    -- The workflow enters a status, and the job that continues it from there is scheduled.
    unfoldable pub advance : WorkflowStatus → Handling d Unit
    unfolding update_workflow ensure_continue_job
    advance next = do
      moved ← or_fail d "WORKFLOW_STATE_FAILED" (update_workflow d scope w.id (transition next))
      or_schedule_failure d (ensure_continue_job d r moved moved.status)
      pure tt

    unfoldable pub continue_pending : List Challenge → Handling d Unit
    unfolding all_of prepare_from advance
    continue_pending challenges = all_of prepare challenges >>= λ ready.
        if ready
        then advance WorkflowStatus.challenge_processing
        else leave (retry "CHALLENGE_NOT_READY" "challenge propagation still pending")

    unfoldable pub continue_processing : List Challenge → Handling d Unit
    unfolding all_of verify_from advance
    continue_processing challenges = all_of verify challenges >>= λ valid.
        if valid
        then advance WorkflowStatus.challenge_valid
        else leave (retry "CHALLENGE_VERIFY_PENDING" "challenge verification still pending")
