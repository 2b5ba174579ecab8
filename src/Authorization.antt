-- ===== src/Authorization.antt =====
-- The public `authorization` package.
pub mod Identifier
pub mod Catalog
pub mod Rbac
pub mod Memstore
pub mod Evaluator
mod Tests
