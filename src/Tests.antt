-- ===== src/Tests.antt =====
-- The theorems at concrete inputs.
pub mod Samples
pub mod Lifecycle
pub mod Outbox
pub mod Security
pub mod Server
pub mod Web
pub mod Http
pub mod Hooks
pub mod Config
