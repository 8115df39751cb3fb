-- ===== src/Domains.antt =====
-- internal/domain/domains: the domains under governance.
pub mod State
pub mod Commands
pub mod Names
pub mod Preserving
pub mod Unique
