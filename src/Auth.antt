-- ===== src/Auth.antt =====
-- The auth service (internal/auth).
pub mod Tables
pub mod Repository
pub mod Service
pub mod Http
pub mod Grpc
pub mod Credentials
pub mod Listing
pub mod PushToken
pub mod Upsert
pub mod Registration
pub mod Renewal
pub mod Rotation
pub mod Revocation
pub mod Reuse
pub mod Outbox
pub mod Delivery
mod Tests
mod Examples
