-- ===== src/Access.antt =====
-- Access tokens: packages/auth/src/index.ts over packages/auth-sqlite/src/index.ts.
pub mod Token
pub mod Request
pub mod Service
