-- ===== src/Tests.antt =====
-- Concrete inputs: the data, and each theorem with hypotheses at one of them.
mod Data
mod Run
mod Store
mod Leases
mod Service
mod Automation
mod Access
mod Routing
mod Agent
mod Submission
mod Children
mod Context
