-- ===== src/Sync.antt =====
-- internal/client/sync: aggregation of entries, the retry queue, and the submission service.
pub mod Entries
pub mod Aggregate
pub mod Auth
pub mod Queue
pub mod Submit
pub mod Examples
