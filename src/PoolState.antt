-- ===== src/PoolState.antt =====
-- internal/pool/state: the durable lifecycle records of the runner pool.
pub mod Types
pub mod Validate
pub mod Transition
pub mod Lookup
pub mod Store
pub mod Disk
