-- ===== src/Orchestration.antt =====
-- internal/workflow: the orchestration of an issuance, from the request to the certificate.
pub mod Drivers
pub mod World
pub mod Steps
pub mod Start
pub mod Rounds
pub mod Continue
pub mod Submit
pub mod Keeping
pub mod Rounding
pub mod Handlers
pub mod Progress
pub mod Stuck
pub mod Restarting
