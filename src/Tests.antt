-- ===== src/Tests.antt =====
-- Runs of the model on small inputs.
mod Stores
mod Jobs
mod Issues
mod Orchestration
mod Requests
mod Services
mod Assets
