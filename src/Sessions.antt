-- ===== src/Sessions.antt =====
-- The sessions behind the refresh tokens.
pub mod Keys
pub mod Refresh
pub mod Login
pub mod Lookup
pub mod Cleanup
pub mod Register
pub mod Logout
