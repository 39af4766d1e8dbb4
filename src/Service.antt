-- ===== src/Service.antt =====
-- The run service: packages/control-plane/src/index.ts.
pub mod State
pub mod Transition
pub mod Ending
pub mod Finish
pub mod Cancel
pub mod Recovery
pub mod Children
pub mod Intake
