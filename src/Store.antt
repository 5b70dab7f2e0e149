-- ===== src/Store.antt =====
-- The object store: the tables behind an object, the transactions that change them together, and
-- the jobs and handlers that do so in several steps.
pub mod Table
pub mod Rows
pub mod Staging
pub mod Objects
pub mod Versions
pub mod Cleanup
pub mod Commit
pub mod Removal
pub mod Promotion
pub mod Deletion
pub mod Recovery
pub mod Tracked
pub mod Drive
pub mod Drain
pub mod Disk
mod Samples
mod Tests
