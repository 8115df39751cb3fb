-- ===== src/Job.antt =====
-- internal/domain/job: the scheduling record of an asynchronous job and its attempts.
pub mod Errors
pub mod Clock
pub mod Status
pub mod AttemptStatus
pub mod Attempt
pub mod Record
pub mod Lifecycle
pub mod Invariant
pub mod Effects
pub mod AttemptEffects
