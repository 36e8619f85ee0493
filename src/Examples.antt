-- ===== src/Examples.antt =====
-- The theorems at concrete inputs, and runs of the definitions.
mod PoolState
mod Dependency
mod Supervisor
mod Storage
mod Pool
mod Sweep
mod Capacity
