-- ===== src/Store.antt =====
-- internal/client/store: the client's SQLite database.
pub mod Tables
pub mod FocusEvents
pub mod EventTags
pub mod Submissions
pub mod Tags
pub mod Notes
