-- ===== src/Postgres.antt =====
-- internal/infrastructure/postgres: the stores over the tables.
pub mod Memberships
pub mod Queries
pub mod Organizations
pub mod Challenges
pub mod Users
pub mod RefreshTokens
pub mod Invites
pub mod ApiTokens
