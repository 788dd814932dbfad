-- ===== src/Store.antt =====
-- internal/store: the daemon's SQLite layer.
pub mod Timestamp
pub mod Id
pub mod Types
pub mod Deliveries
pub mod Messages
pub mod Actions
pub mod Queries
pub mod Writes
pub mod Versions
pub mod Unique
pub mod Soundness
pub mod Growing
pub mod Lifecycle
pub mod Preserve
pub mod Eligible
pub mod Counting
pub mod Descending
pub mod Paging
pub mod Emitting
pub mod Migrations
