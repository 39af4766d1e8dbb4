-- ===== src/Store.antt =====
-- The store of runs: packages/storage-sqlite/src/index.ts.
pub mod Json
pub mod Rows
pub mod Tables
pub mod Events
pub mod Leases
pub mod Approvals
pub mod Resources
pub mod Submission
pub mod Provision
