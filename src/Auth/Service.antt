-- ===== src/Auth/Service.antt =====
-- internal/auth/service/auth.
pub mod Requests
pub mod Register
pub mod Login
pub mod Sessions
