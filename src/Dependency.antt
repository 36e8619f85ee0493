-- ===== src/Dependency.antt =====
-- internal/dependency: retry policies, delays, typed failures and the supervisor of an outage.
pub mod Policy
pub mod Backoff
pub mod Failure
pub mod Supervisor
