-- ===== src/Storage.antt =====
-- internal/storage/badger.go: the queue before the database, what a batch writes, and the queries.
pub mod Sample
mod Tests
pub mod Key
pub mod Queue
pub mod Flush
pub mod Lifecycle
pub mod Query
pub mod Timeline
pub mod Api
