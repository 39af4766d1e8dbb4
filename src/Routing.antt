-- ===== src/Routing.antt =====
-- The choice of a model and the turn of a model: packages/provider-core/src/index.ts.
pub mod Models
pub mod Registry
pub mod Cost
pub mod Gateway
pub mod Turn
