-- ===== src/IssueWorkflow/Validity.antt =====
-- A challenge of internal/domain/issueworkflow/service.go after it became valid.
use auto_cert_x.Prelude.{
  String, ◌≡◌, refl, Option, none, some, List, [], ◌∷◌, inl, inr, err, Result-cases, Bool-cases,
  ◌==◌, if◌then◌else◌,
}
use auto_cert_x.Job.Clock.{Time}
use auto_cert_x.IssueWorkflow.ChallengeStatus.{ChallengeStatus, valid, can_challenge_transition}
use auto_cert_x.IssueWorkflow.State.{Challenge, Flows, scoped}
use auto_cert_x.IssueWorkflow.Challenges.{moved_challenge, update_in, update_challenge_status}
use auto_cert_x.Resource.Errors.{ResourceError, validation}
use auto_cert_x.Resource.Scope.{Scope}
use auto_cert_x.Dict.{lookup_list}

moved_valid :
    (c : Challenge) (next : ChallengeStatus) (now : Time)
    → c.status ≡ valid
    → moved_challenge c next now ≡ err validation
unfolding moved_challenge can_challenge_transition
moved_valid c next now h = rw h refl

-- the challenge under an id, the first one that has it
abbrev pub find : String → List Challenge → Option Challenge
find id [] = none
find id (c ∷ later) = if c.id == id then some c else find id later

update_in_valid :
    (challenges : List Challenge) (id : String) (next : ChallengeStatus) (now : Time)
    {c : Challenge}
    → find id challenges ≡ some c
    → c.status ≡ valid
    → update_in challenges id next now ≡ err validation
unfolding update_in
update_in_valid [] id next now found h = absurd (cc)
update_in_valid (d ∷ later) id next now {c} found h = elim (Bool-cases (d.id == id)) [
  | inl here ↦
      let same : d ≡ c = cc (rw here at found) in rw (here, moved_valid d next now (rw same h)) refl
  | inr elsewhere ↦ rw (elsewhere, update_in_valid later id next now (rw elsewhere at found) h) refl
]

-- A challenge that became valid is never moved again: whatever status it is given, the update is
-- refused and the service stays as it is, so that neither `cleanup_pending` nor `cleaned` is
-- reached from it.
pub valid_never_cleaned :
    (s : Flows) (scope : Scope) (id challenge_id : String) (next : ChallengeStatus) (now : Time)
    {c : Challenge}
    → find challenge_id (lookup_list id s.challenges) ≡ some c
    → c.status ≡ valid
    → (e : ResourceError) × (update_challenge_status s scope id challenge_id next now ≡ (err e, s))
unfolding update_challenge_status
valid_never_cleaned s scope id challenge_id next now found h =
    elim (Result-cases (scoped s scope id)) [
      | inr (e, missing) ↦ (e, rw missing refl)
      | inl (w, there) ↦ (
        validation,
        rw (there, update_in_valid (lookup_list id s.challenges) challenge_id next now found h)
            refl,
      )
    ]
