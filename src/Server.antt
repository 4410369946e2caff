-- ===== src/Server.antt =====
-- The HTTP server of the auth service (apps/auth/src/server.ts).
pub mod InternalApi
pub mod Pages
pub mod Http
pub mod Endpoints
pub mod Requests
pub mod Sweeps
pub mod System
pub mod Config
