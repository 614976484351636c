-- ===== src/Outbox.antt =====
-- The transactional outbox (internal/auth and internal/notification: repository/outbox.go,
-- service/outbox, workers/outbox, which differ in the name of the table and in how an event is
-- published).
pub mod Table
pub mod Repository
pub mod Service
pub mod Worker
pub mod Claims
pub mod Locks
pub mod Hands
pub mod Exclusion
pub mod Content
pub mod Soundness
pub mod Batch
pub mod Processed
pub mod Running
mod Tests
