-- ===== src/JobService.antt =====
-- internal/application/command/jobs/service.go: the job command service over the repository.
pub mod Backoff
pub mod BackoffBounds
pub mod Plans
pub mod Service
pub mod Planning
