-- ===== src/Security.antt =====
-- The pure security policies of the auth service (apps/auth/src/security).
pub mod AccessPolicy
pub mod Linking
pub mod Origin
pub mod ServiceToken
pub mod RateLimit
pub mod RateKey
pub mod BackupCodes
