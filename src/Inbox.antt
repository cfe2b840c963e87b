-- ===== src/Inbox.antt =====
-- Private messages as they are shown.
pub mod Partners
pub mod Latest
