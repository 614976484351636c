-- ===== src/Inbox.antt =====
-- Messages that a service has received (internal/wallet, internal/notification: the repositories'
-- event.go, the services' event/service.go, and `Handle` of the subscribers' handler.go).
pub mod Table
pub mod Repository
pub mod Service
pub mod Handling
pub mod Laws
pub mod Keeping
pub mod Failing
mod Tests
