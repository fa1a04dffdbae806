-- ===== src/Jobs.antt =====
-- The run queue of demo/jobs.py: its tables, its operations as actions on them, and what holds
-- of every history of calls.
pub mod Data
pub mod Monad
pub mod Owner
pub mod Lease
pub mod Moves
pub mod Calls
pub mod Recovery
pub mod Lookups
pub mod Refines
pub mod Valid
pub mod Invariant
pub mod Lifecycle
pub mod Rollback
pub mod Repeats
pub mod Tables
pub mod Reads
pub mod Order
pub mod Cut
pub mod Pages
pub mod Artifacts
pub mod Returns
pub mod Completes
pub mod Shown
mod Tests
mod ReadTests
pub mod Leases
pub mod ClaimsLeft
pub mod Drains
