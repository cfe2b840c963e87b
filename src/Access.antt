-- ===== src/Access.antt =====
-- Who may do what: what a successful call of a service says of its caller and of the tables.
pub mod Reads
pub mod Threads
pub mod Posts
pub mod Groups
pub mod Media
pub mod Errors
