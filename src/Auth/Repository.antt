-- ===== src/Auth/Repository.antt =====
-- internal/auth/repository/auth.go
pub mod Statements
pub mod Users
pub mod Sessions
