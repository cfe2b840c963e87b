-- ===== src/Store.antt =====
-- internal/store: one module per store. A method is an action; the SQL of its statements is
-- translated over the tables, with the constraints of the schema in migrations/.
pub mod Cascade
pub mod User
pub mod Session
pub mod Group
pub mod Thread
pub mod Post
pub mod Message
pub mod Notification
pub mod Attachment
pub mod Settings
