-- ===== src/Storage/Capacity.antt =====
-- internal/storage/capacity.go: the free bytes that an operation needs, and whether they are there.
pub mod Types
pub mod Topology
pub mod Plan
pub mod Resolve
pub mod Check
pub mod Sums
pub mod Peaks
pub mod Requirements
pub mod Verdict
pub mod Fits
