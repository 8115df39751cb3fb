-- ===== src/IssueWorkflow.antt =====
-- internal/domain/issueworkflow: issuance workflows and their challenges.
pub mod Status
pub mod ChallengeStatus
pub mod State
pub mod Commands
pub mod Challenges
pub mod Progress
pub mod Issuance
pub mod Validity
pub mod Requests
pub mod Ways
pub mod Refusals
