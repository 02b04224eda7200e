-- ===== src/Identity.antt =====
-- Accounts and sessions, backend/app/modules/identity.
pub mod Users
pub mod Sessions
pub mod Login
pub mod Refresh
pub mod Signout
pub mod History
pub mod Revocation
pub mod Ends
pub mod PasswordChange
pub mod Tokens
pub mod Spent
pub mod Once
pub mod Locking
pub mod Locked
pub mod Written
pub mod RateLimit
pub mod Challenges
pub mod Recovery
mod Tests
