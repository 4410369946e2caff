-- ===== src/Lifecycle/Store.antt =====
-- The tables of the auth schema that apps/auth/src/lifecycle/service.ts reads and writes, with the
-- columns that it names, and the payloads of the outbox (apps/auth/src/identity/gateway.ts,
-- apps/auth/src/email/provider.ts). Instants are milliseconds since the epoch, also in payloads,
-- where the code writes them as ISO texts.
use rsp_website.Prelude.{ℕ, String, Bool, Option, List, Text}
use rsp_website.Security.AccessPolicy.{AccountState}

pub record User : Type 0 where
  pub id : String
  pub name : String
  pub email : String
  pub email_verified : Bool
  pub image : Option String
  pub account_state : AccountState
  pub security_version : ℕ
  pub deletion_requested_at : Option ℕ
  pub deletion_recovery_deadline : Option ℕ
  pub two_factor_enabled : Bool
  pub updated_at : ℕ

pub record Session : Type 0 where
  pub id : String
  pub user_id : String
  pub token : String
  pub mfa_verified_at : Option ℕ

pub record Account : Type 0 where
  pub id : String
  pub user_id : String
  pub provider_id : String

pub record TwoFactor : Type 0 where
  pub id : String
  pub user_id : String

pub record Verification : Type 0 where
  pub id : String
  pub identifier : String
  pub value : String

pub record RecoveryToken : Type 0 where
  pub id : String
  pub user_id : String
  pub token_hash : String
  pub requested_at : ℕ
  pub expires_at : ℕ
  pub used_at : Option ℕ
  pub revoked_at : Option ℕ

pub data SessionRevocationReason : Type 0 where
  suspension deletion_requested password_reset password_changed : SessionRevocationReason
  email_changed provider_linked mfa_changed security_admin : SessionRevocationReason

-- What a lifecycle event says beside the account, its security version and the time.
pub data EventKind : Type 0 where
  auth_user_created : String → Bool → EventKind
  email_verified : EventKind
  email_changed : String → EventKind
  account_state_changed : AccountState → String → Option String → EventKind
  sessions_revoked : SessionRevocationReason → EventKind
  deletion_requested : ℕ → EventKind
  deletion_cancelled auth_pseudonymized : EventKind
  mfa_configured mfa_disabled : EventKind

-- `NewIdentityLifecycleEvent`; the event ID is that of the outbox row
pub record IdentityEvent : Type 0 where
  pub kind : EventKind
  pub auth_user_id : String
  pub security_version : ℕ
  pub occurred_at : ℕ

pub record EmailMessage : Type 0 where
  pub to : String
  pub subject : Text
  pub text : Text
  pub html : Option Text

-- the two targets of the outbox, each with its payload
pub data Payload : Type 0 where
  identity : IdentityEvent → Payload
  email : EmailMessage → Payload

pub record OutboxRow : Type 0 where
  pub id : String
  pub payload : Payload
  pub attempt_count : ℕ
  pub available_at : ℕ
  pub locked_until : Option ℕ
  pub last_error : Option Text
  pub created_at : ℕ
  pub delivered_at : Option ℕ

pub record Db : Type 0 where
  pub users : List User
  pub sessions : List Session
  pub accounts : List Account
  pub two_factors : List TwoFactor
  pub verifications : List Verification
  pub recovery_tokens : List RecoveryToken
  pub outbox : List OutboxRow
