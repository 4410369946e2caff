-- ===== src/Lifecycle.antt =====
-- The lifecycle of accounts in the auth service (apps/auth/src/lifecycle).
pub mod Policy
pub mod Store
pub mod Tx
pub mod Outbox
pub mod Statements
pub mod Service
pub mod Deletion
pub mod Erasure
pub mod Hooks
pub mod Library
pub mod Machine
