-- ===== src/Pool/Cleanup.antt =====
-- internal/pool/lifecycle_cleanup.go: the cleanup of one lifecycle record. `Host` is what it runs
-- against, `Driver` the code.
pub mod Records
pub mod Host
pub mod Facts
pub mod Jobs
pub mod Removals
pub mod Driver
pub mod Rank
pub mod Logic
pub mod Triple
pub mod Observe
pub mod Tolerance
pub mod Ends
pub mod Loop
pub mod Identity
pub mod Exact
pub mod Spared
pub mod Written
pub mod View
pub mod OnDisk
pub mod Orphans
pub mod Unowned
pub mod Idle
pub mod Buried
pub mod Swept
