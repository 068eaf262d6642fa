-- ===== src/Store.antt =====
-- internal/store: the SQLite tables, and the queries and transactions over them.
pub mod Models
pub mod Departure
pub mod Snapshot
pub mod Apply
pub mod Diff
pub mod Queue
pub mod Accounts
pub mod Samples
mod Tests
