-- ===== src/Notification.antt =====
-- The notification service (internal/notification): its inbox and outbox, which it shares with the
-- other services but for the names of the tables. Its handler is `Inbox.Handling.handle`.
pub mod Tables
pub mod Repository
pub mod Service
pub mod Subscriber
pub mod Alerts
pub mod Tickets
pub mod Keys
pub mod Once
mod Tests
mod Streams
