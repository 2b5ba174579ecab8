-- ===== src/Token/Tests.antt =====
-- Runs of the token package, and the theorems on them.
pub mod Keys
pub mod Tokens
mod Fetching
