-- ===== src/JobStore.antt =====
-- token_bench/job_store.py: the jobs and the consumed approvals that SQLite keeps.
pub mod Table
mod Row
mod Database
pub mod Valid
pub mod Steps
pub mod Lookup
pub mod Update
pub mod Claim
pub mod Enqueue
pub mod Register
pub mod Approval
pub mod Orphans
pub mod Spent
pub mod Transitions
pub mod Board
pub mod Refines
pub mod Samples
pub mod Tests
pub use Row.*
unfoldable pub use Database.*
