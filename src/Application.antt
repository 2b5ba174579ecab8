-- ===== src/Application.antt =====
-- internal/application: the use cases of the service.
pub mod OrgService
pub mod Sessions
pub mod Otp
pub mod Invites
pub mod ApiTokens
pub mod Passwords
mod Tests
