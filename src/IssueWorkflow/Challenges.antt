-- ===== src/IssueWorkflow/Challenges.antt =====
-- internal/domain/issueworkflow/service.go: `EnsureChallenges` and `UpdateChallengeStatus`, which
-- compare the scope with the stored one and do not validate it, and `ListChallenges`.
use Prim.Native.Char.{Char}
use auto_cert_x.Prelude.{
  ℕ, ◌+◌, String, Bool, not, ◌&&◌, none, some, List, [], ◌∷◌, ok, err, ◌>>=◌, ◌>>◌, reject_if, ◌==◌,
  eqb, if◌then◌else◌,
}
use auto_cert_x.Text.{trim_space, to_lower}
use auto_cert_x.Dict.{insert, lookup_list}
use auto_cert_x.Prelude.Sorting.{sort_by}
use text.Mathlib.Text.{is_lt}
use Prim.Native.String.{compare}
use auto_cert_x.Job.Clock.{Time, before}
use auto_cert_x.Resource.Errors.{Answer, not_found, validation}
use auto_cert_x.Resource.Scope.{Scope}
use auto_cert_x.IssueWorkflow.Status.{challenge_pending}
use auto_cert_x.IssueWorkflow.ChallengeStatus.{
  ChallengeStatus, pending, presented, valid, cleaned, cleanup_failed, can_challenge_transition,
}
use auto_cert_x.IssueWorkflow.State.{Workflow, Challenge, ChallengeInput, Flows, scoped, get}
use auto_cert_x.IssueWorkflow.Commands.{commit, enter}

-- One round of the loop over the inputs; `fresh` is the id drawn for it.
unfoldable pub new_challenge :
    (Char → Char) → Scope → String → ChallengeInput → Time → String → Answer Challenge
new_challenge lower scope workflow_id input now fresh = do
  let challenge_type = to_lower lower (trim_space input.challenge_type)
  reject_if (not (challenge_type == "http-01") && not (challenge_type == "dns-01")) validation
  let identifier = to_lower lower (trim_space input.identifier)
  reject_if (identifier == "") validation
  ok (record {
    id = fresh;
    scope = scope;
    issue_workflow_id = workflow_id;
    domain_asset_id = trim_space input.domain_asset_id;
    challenge_type = challenge_type;
    identifier = identifier;
    token = trim_space input.token;
    key_authorization = trim_space input.key_authorization;
    http_path = trim_space input.http_path;
    dns_record_name = trim_space input.dns_record_name;
    dns_record_value = trim_space input.dns_record_value;
    status = pending;
    presented_at = none;
    validated_at = none;
    cleaned_at = none;
    created_at = now;
    updated_at = now;
  })

unfoldable pub new_challenges :
    (Char → Char)
    → Scope
    → String
    → Time
    → (ℕ → String)
    → ℕ
    → List ChallengeInput
    → Answer (List Challenge)
unfolding new_challenge
new_challenges lower scope workflow_id now fresh k [] = ok []
new_challenges lower scope workflow_id now fresh k (input ∷ inputs) = do
  c ← new_challenge lower scope workflow_id input now (fresh k)
  rest ← new_challenges lower scope workflow_id now fresh (k + 1) inputs
  ok (c ∷ rest)

abbrev pub is_empty : {A : Type 0} → List A → Bool
is_empty [] = Bool.true
is_empty (x ∷ xs) = Bool.false

-- Challenges that exist are returned as they are.
unfoldable pub ensure_challenges :
    (Char → Char)
    → Flows
    → Scope
    → String
    → List ChallengeInput
    → Time
    → (ℕ → String)
    → Answer (List Challenge × Workflow) × Flows
unfolding new_challenges scoped
ensure_challenges lower s scope id inputs now fresh = commit s (do
  reject_if (is_empty inputs) validation
  w ← scoped s scope id
  let existing = lookup_list id s.challenges
  if not (is_empty existing) then ok ((existing, w), s) else do
    moved ← enter challenge_pending w
    items ← new_challenges lower scope id now fresh 0 inputs
    let saved = record moved { updated_at = now; last_error_code = ""; last_error_message = "" }
    ok (
      (items, saved),
      record s { by_id = insert id saved s.by_id; challenges = insert id items s.challenges },
    ))

-- the `switch` that stamps the time of a status
unfoldable pub stamped : Challenge → ChallengeStatus → Time → Challenge
stamped c presented now = record c { status = presented; updated_at = now; presented_at = some now }
stamped c valid now = record c { status = valid; updated_at = now; validated_at = some now }
stamped c cleaned now = record c { status = cleaned; updated_at = now; cleaned_at = some now }
stamped c cleanup_failed now = record c {
  status = cleanup_failed;
  updated_at = now;
  cleaned_at = some now;
}
stamped c next now = record c { status = next; updated_at = now }

unfoldable pub moved_challenge : Challenge → ChallengeStatus → Time → Answer Challenge
unfolding stamped
moved_challenge c next now = do
  reject_if (not (can_challenge_transition c.status next)) validation
  ok (stamped c next now)

-- The first challenge with the id is the one that is moved.
unfoldable pub update_in :
    List Challenge → String → ChallengeStatus → Time → Answer (Challenge × List Challenge)
unfolding moved_challenge
update_in [] id next now = err not_found
update_in (c ∷ later) id next now =
    let rest = update_in later id next now in
    if c.id == id
    then (do moved ← moved_challenge c next now; ok (moved, moved ∷ later))
    else (do found ← rest; ok (found.0, c ∷ found.1))

unfoldable pub update_challenge_status :
    Flows → Scope → String → String → ChallengeStatus → Time → Answer Challenge × Flows
unfolding update_in scoped
update_challenge_status s scope workflow_id challenge_id next now = commit s (do
  w ← scoped s scope workflow_id
  found ← update_in (lookup_list workflow_id s.challenges) challenge_id next now
  ok (found.0, record s { challenges = insert workflow_id found.1 s.challenges }))

-- by age, then by id
abbrev listed_before : Challenge → Challenge → Bool
listed_before left right =
    if eqb left.created_at right.created_at
    then is_lt (compare left.id right.id)
    else before left.created_at right.created_at

unfoldable pub list_challenges : Flows → Scope → String → Answer (List Challenge)
unfolding get sort_by
list_challenges s scope id = do
  w ← get s scope id
  ok (sort_by listed_before (lookup_list id s.challenges))
