-- ===== src/Web.antt =====
-- What holds of every request, whatever its route.
pub mod Frames
pub mod Reads
pub mod Entries
pub mod Writes
pub mod Answers
pub mod Rules
pub mod Safe
pub mod Requests
pub mod Guards
pub mod Inversion
pub mod Sending
pub mod Pages
