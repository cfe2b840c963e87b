-- ===== src/Examples.antt =====
-- Concrete tables, and the theorems at them.
pub mod Data
pub mod Integrity
pub mod Access
pub mod Sessions
pub mod Ws
pub mod Accounts
pub mod Unread
pub mod Errors
pub mod Web
pub mod Requests
