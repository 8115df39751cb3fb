-- ===== src/JobStore.antt =====
-- internal/application/command/jobs: the in-memory repository of jobs, and its contracts.
pub mod Params
pub mod State
pub mod History
pub mod Invariant
pub mod Adding
pub mod Lookups
pub mod Rewrites
pub mod Completing
pub mod Preserving
pub mod Cancelling
pub mod Claiming
pub mod Expiring
pub mod Reachable
pub mod Ownership
pub mod Leaves
pub mod Frames
pub mod Sweeps
pub mod Finality
pub mod Commands
pub mod Reaping
pub mod Listing
