-- ===== src/Lib.antt =====
-- The ephemeral action runner (EPAR) keeps a pool of self-hosted GitHub Actions runners, each in a
-- fresh instance of a provider. This library models the parts that decide and that remember.
--
-- The parts and how they interact. The pool's controller records the life of each runner in a
-- snapshot file before it acts on GitHub or on a provider (internal/pool/state), and its cleanup
-- drives each record to its end, removing the runner and the instance on the way (internal/pool).
-- When GitHub or another service fails, the failure is typed and classified, and a supervisor with a
-- backoff decides when the next attempt begins, up to a deadline (internal/dependency). A planner
-- decides which cached artifacts may go, and an executor carries an approved plan out; before an
-- operation its peak is compared with the free bytes of each disk (internal/storage).
--
-- Shared: tests, lists, text, integers and results that the other modules use.
-- PoolState (internal/pool/state/types.go and store.go):
--   Types has the records and the actions, Validate the validation of names, records and states,
--   Transition `applyTransition` with one function by clauses, Lookup the binary search `findRecord`,
--   Store the operations on a loaded snapshot, and Disk the lock, the load, the save through a
--   temporary file and `mutate`. Transition.Phases, Burial, Resume and History, Lookup.Search,
--   Store.Names, Leases and Frame, and Disk.Encoding, Atomic, Snapshot, Sound and ReadBack are
--   proofs.
-- Pool.Cleanup (internal/pool/lifecycle_cleanup.go, with what it calls of lifecycle_state.go and of
--   manager.go): Records is the interface of the store, with its laws, Host the operations of GitHub
--   and of the provider and the sequence of calls; Facts has the tests, Jobs the observation of jobs,
--   Removals the removal of the runner and of the instance, and Driver the loop of
--   `cleanupLifecycleRecordWithPolicy`; Orphans is the cleanup of instances without a record and the
--   sweep `cleanupOwnedLifecycle`. Logic, Rank, Triple, Observe, Tolerance, Ends, Loop, Identity,
--   Exact, Spared, Unowned, Idle, Buried and Swept are proofs, and Written, View and OnDisk
--   fill the interface of the store with PoolState.Disk.
-- Dependency (internal/dependency):
--   Policy is policy.go, Backoff is backoff.go, Failure is failure.go and Supervisor is supervisor.go;
--   Failure.Errors has the trees of errors and Supervisor.State the state of an incident; the
--   children Laws, Bounds, Decision and Incident are proofs. Supervisor.Incident has the calls
--   of a supervisor as a step relation.
-- Storage (internal/storage):
--   Types is types.go, Planner the classification of planner.go and Planner.Retention its policy,
--   its count of the generations and its cache budgets, Executor is executor.go and the validation
--   of hash.go; Planner.Candidates and Removals and Executor.Journal and Removals are proofs.
--   Capacity is capacity.go: Types has its records, Topology and Plan the normalizations, Resolve the
--   resolution of a plan and Check the evaluations; Sums, Peaks, Requirements, Verdict and Fits are
--   proofs.
-- Examples: the theorems at concrete inputs.
--
-- Conventions. A time is a number of nanoseconds with 0 for Go's zero time, all of one clock and in
-- UTC. A duration is a signed number of nanoseconds; that an int64 could overflow at 292 years is left
-- out. A string is the list of its code points; a Go string of bytes that are no UTF-8 is left out. An
-- unsigned sum of bytes wraps at 2 ^ 64. Each operation is handed the time it reads. A mutex makes a
-- call one step; where a call releases it and takes it again, as WaitUntilReady does, it is two steps.
--
-- Parameters, for code outside the repository. `Codec` is the encoding as JSON and its digest, whose
-- laws are that decoding undoes encoding and that the digest is one for each content. `Io` gives the
-- outcomes of the file system and of the attempts at the lock. `Float64` is the floating-point
-- arithmetic, with no law at all. The texts of durations and the case of letters obey `TextLaws`. How
-- an error reads, and its redaction by regular expressions, are arbitrary functions. `ExactExecutor`
-- is the interface of the source, over an arbitrary world that either call may change. `Host` is
-- GitHub's client, the provider and the clock over an arbitrary world that each call may change;
-- the errors of a provider are those after their classification.
--
-- Recursion. The binary search runs on fuel, the length of the list: its range halves at each step.
-- The loop of the cleanup runs on fuel: a record needs at most eight transitions to its end, one round
-- finds it there, and one round may only learn that the runner is gone, so eleven are enough. Every
-- other definition is by structural recursion.
--
-- Not modelled: the controller's goroutines, the providers, the images and their build, the
-- configuration, the storage catalog, the clients of GitHub and of Docker, the command line, logging
-- and the scripts. They call services and command lines, or stand on the parts modelled here.
mod Shared
pub mod PoolState
pub mod Pool
pub mod Dependency
pub mod Storage
mod Examples
