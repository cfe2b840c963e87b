-- ===== src/Services.antt =====
-- internal/services: one module per service, and the role test and patterns that they share.
pub mod Roles
pub mod Patterns
pub mod Auth
pub mod Install
pub mod Group
pub mod Thread
pub mod Post
pub mod Message
pub mod Notification
pub mod Media
pub mod Admin
