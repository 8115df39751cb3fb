-- ===== src/Scheduler.antt =====
-- internal/scheduler: the planner, the reaper and the worker that drive the job service.
pub mod Loops
pub mod Worker
pub mod Consistency
