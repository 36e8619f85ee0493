-- ===== src/Storage.antt =====
-- internal/storage: the planner that decides which artifacts may go, and the executor of a plan.
pub mod Types
pub mod Planner
pub mod Executor
pub mod Capacity
