-- ===== src/Tracker.antt =====
-- internal/tracker: admission of an export, its date, and the worker that drains the queues.
pub mod Coverage
pub mod SnapshotDate
pub mod Backfill
pub mod Worker
pub mod Reprocess
pub mod Service
mod Tests
