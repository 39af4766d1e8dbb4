-- ===== src/Agent.antt =====
-- The loop of an agent over a model and its tools: packages/agent-runtime/src/index.ts.
pub mod Model
pub mod Tools
pub mod Turns
