-- ===== src/IssueWorkflow/ChallengeStatus.antt =====
-- internal/domain/issueworkflow/service.go: the statuses of a challenge and the transitions
-- between them. `other` is any text that is none of the constants.
use auto_cert_x.Prelude.{String, Bool, true, false}

pub data ChallengeStatus : Type 0 where
  pending presenting presented propagating ready verifying valid invalid : ChallengeStatus
  cleanup_pending cleaned cleanup_failed : ChallengeStatus
  other : String → ChallengeStatus

unfoldable pub can_challenge_transition : ChallengeStatus → ChallengeStatus → Bool
can_challenge_transition pending presenting = true
can_challenge_transition presenting presented = true
can_challenge_transition presented propagating = true
can_challenge_transition presented ready = true
can_challenge_transition propagating ready = true
can_challenge_transition ready verifying = true
can_challenge_transition verifying valid = true
can_challenge_transition verifying invalid = true
can_challenge_transition invalid cleanup_pending = true
can_challenge_transition cleanup_pending cleaned = true
can_challenge_transition cleanup_pending cleanup_failed = true
can_challenge_transition _ _ = false
