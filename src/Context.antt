-- ===== src/Context.antt =====
-- The context of a model's turns: packages/context/src/index.ts.
pub mod Blocks
pub mod Compiler
