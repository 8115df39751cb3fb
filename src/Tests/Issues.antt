-- ===== src/Tests/Issues.antt =====
-- The theorems on issue workflows, at one workflow that is issued.
use Prim.Native.Char.{Char}
use auto_cert_x.Prelude.{ok, ◌≡◌, refl, ap, some, List, [], ◌∷◌, err}
use auto_cert_x.Text.{trim_space, to_lower}
use auto_cert_x.Dict.{lookup, insert, lookup_list}
use auto_cert_x.Resource.Errors.{ResourceError, conflict}
use auto_cert_x.Resource.Scope.{Scope, equals}
use auto_cert_x.IssueWorkflow.Status.{
  created, order_pending, challenge_pending, challenge_processing, challenge_valid, finalizing,
  issued, can_workflow_transition,
}
use auto_cert_x.IssueWorkflow.ChallengeStatus
use auto_cert_x.IssueWorkflow.ChallengeStatus.{can_challenge_transition}
use auto_cert_x.IssueWorkflow.State.{
  Workflow, Challenge, CreateInput, ChallengeInput, Flows, scoped, get_by_request,
}
use auto_cert_x.IssueWorkflow.Commands.{
  create, update_workflow, run_update, apply_update, record_order, transition, mark_issued,
}
use auto_cert_x.IssueWorkflow.Challenges.{ensure_challenges, update_challenge_status}
use auto_cert_x.IssueWorkflow.Progress.{Call, updating, ensuring, moving, after}
use auto_cert_x.IssueWorkflow.Issuance.{
  changes, after_all, issued_by_all_stages, is_final, final_forever,
}
use auto_cert_x.IssueWorkflow.Requests.{created_once}
use auto_cert_x.IssueWorkflow.Validity.{find, valid_never_cleaned}

abbrev here : Scope
here = record { tenant_id = "t"; project_id = "p"; environment_id = "e" }

abbrev as_is : Char → Char
as_is c = c

abbrev request : CreateInput
request = record { certificate_request_id = "r"; ca_account_id = "ca"; workflow_type = "issue" }

abbrev dns : ChallengeInput
dns = record {
  domain_asset_id = "d";
  challenge_type = "dns-01";
  identifier = "example.org";
  token = "tok";
  key_authorization = "auth";
  http_path = "";
  dns_record_name = "_acme-challenge";
  dns_record_value = "v";
}

unfoldable requested : Flows
unfolding create trim_space to_lower lookup insert
requested =
    (create as_is (record { by_id = []; by_request = []; challenges = [] }) here request 1 "w").1

abbrev calls : List Call
calls =
    updating here "w" 2 (record_order "https://ca/order" "https://ca/finalize")
    ∷ ensuring as_is here "w" (dns ∷ []) 3 (λ k. "c")
    ∷ moving here "w" "c" ChallengeStatus.presenting 4
    ∷ moving here "w" "c" ChallengeStatus.presented 5
    ∷ moving here "w" "c" ChallengeStatus.ready 6
    ∷ moving here "w" "c" ChallengeStatus.verifying 7
    ∷ moving here "w" "c" ChallengeStatus.valid 8
    ∷ updating here "w" 9 (transition challenge_processing)
    ∷ updating here "w" 10 (transition challenge_valid)
    ∷ updating here "w" 11 (transition finalizing)
    ∷ updating here "w" 12 (mark_issued "certificate")
    ∷ []

unfoldable completed : Flows
unfolding requested after run_update update_workflow scoped equals trim_space to_lower lookup insert
    lookup_list apply_update can_workflow_transition ensure_challenges update_challenge_status
    can_challenge_transition
completed = after_all requested calls

requested_holds : (w : Workflow) × (lookup "w" requested.by_id ≡ some w) × (w.status ≡ created)
unfolding requested
requested_holds = (_, refl, refl)

completed_holds : (w : Workflow) × (lookup "w" completed.by_id ≡ some w) × (w.status ≡ issued)
unfolding completed
completed_holds = (_, refl, refl)

completed_valid :
    (c : Challenge) × (find "c" (lookup_list "w" completed.challenges) ≡ some c)
    × (c.status ≡ ChallengeStatus.valid)
unfolding completed
completed_valid = (_, refl, refl)

issued_by_all_stages_example :
    changes "w" created requested calls
    ≡ order_pending ∷ challenge_pending ∷ challenge_processing ∷ challenge_valid ∷ finalizing
      ∷ issued ∷ []
unfolding completed completed_holds
issued_by_all_stages_example =
    issued_by_all_stages "w" requested calls requested_holds.1 requested_holds.2 completed_holds.1
      completed_holds.2

final_forever_example :
    (v : Workflow) × (lookup "w" (after_all completed calls).by_id ≡ some v)
    × (v.status ≡ completed_holds.0.status)
final_forever_example =
    final_forever "w" completed calls completed_holds.1 (ap is_final completed_holds.2)

valid_never_cleaned_example :
    (e : ResourceError) × (update_challenge_status completed here "w" "c"
        ChallengeStatus.cleanup_pending 13
      ≡ (err e, completed))
valid_never_cleaned_example =
    valid_never_cleaned completed here "w" "c" ChallengeStatus.cleanup_pending 13 completed_valid.1
      completed_valid.2

created_requested :
    (w : Workflow) × (create as_is
        (record { by_id = []; by_request = []; challenges = [] })
        here
        request
        1
        "w"
      ≡ (ok w, requested))
unfolding requested
created_requested = (_, refl)

created_once_example :
    (get_by_request requested here "r" ≡ ok created_requested.0)
    × (create as_is requested here request 2 "x" ≡ (err conflict, requested))
created_once_example =
    created_once as_is (record { by_id = []; by_request = []; challenges = [] }) requested here
      request 1 2 "w" "x" created_requested.1
