-- ===== src/Token.antt =====
-- The public `token` package, token/access.go.
pub mod Base64
pub mod BigEndian
pub mod Keys
pub mod Claims
pub mod Verifier
pub mod Tests
