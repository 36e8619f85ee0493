-- ===== src/Pool.antt =====
-- internal/pool: the controller's use of the lifecycle records.
pub mod Cleanup
