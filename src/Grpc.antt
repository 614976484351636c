-- ===== src/Grpc.antt =====
-- pkg/grpc: the interceptors of servers and clients, and the credentials of TLS.
pub mod Interceptors
pub mod Telemetry
pub mod Credentials
pub mod Certificates
mod Tests
