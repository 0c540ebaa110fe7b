-- ===== src/Ledger.antt =====
-- token_bench/ledger.py: the published tables.
pub mod Publication
pub mod Recovery
pub mod Commit
pub mod Validity
pub mod Attempts
pub mod Fresh
pub mod Published
pub mod ResultRows
pub mod SummaryCells
pub mod Gaps
pub mod SummaryRows
pub mod Comparison
pub mod ComparisonRows
pub mod Window
pub mod Compared
pub mod Sync
pub mod Keys
pub mod Reread
pub mod Appends
pub mod SummarySteps
pub mod ResultSteps
pub mod Rest
pub mod Settled
pub mod Tests
pub mod SyncTests
pub mod ComparisonTests
