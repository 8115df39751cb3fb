-- ===== src/Resource.antt =====
-- internal/domain/resource: the tenant boundary of a resource, and the errors of resource services.
pub mod Errors
pub mod Scope
pub mod Stores
pub mod Keyed
