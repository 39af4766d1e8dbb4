-- ===== src/Run.antt =====
-- A run as its records and rules, with no store.
pub mod Status
pub mod Transitions
pub mod Record
pub mod ChildBudget
