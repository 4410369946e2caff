-- ===== src/Email.antt =====
-- The messages that the auth service sends (apps/auth/src/email).
pub mod Templates
