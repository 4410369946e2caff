-- ===== src/Lifecycle/Service.antt =====
-- The operations of `AccountLifecycleService` (apps/auth/src/lifecycle/service.ts) that change
-- sessions and suspension. The deletion of accounts is in Lifecycle/Deletion.antt and
-- Lifecycle/Erasure.antt.
pub mod Suspension
pub mod Revocation
use rsp_website.Prelude.{
  ℕ, ◌+◌, String, Bool, true, false, ◌&&◌, Option, none, some, List, [], ◌∷◌, if◌then◌else◌,
  or_default, str_eq,
}
use rsp_website.Security.AccessPolicy.{AccountState, active, suspended, deletion_pending, deleted}
use rsp_website.Lifecycle.Policy.{LifecycleCommand, next_account_state}
use rsp_website.Lifecycle.Store.{
  Db, User, SessionRevocationReason, sessions_revoked, mfa_configured, mfa_disabled,
  account_state_changed,
}
use rsp_website.Lifecycle.Tx.{
  Error, user_not_found, invalid_transition, suspension_refused, Result, ok, err, Tx, pure, throw,
  gets, or_throw, ◌>>=◌, ◌>>◌, modify, throw_if, version_or_throw, in_transaction,
}
use rsp_website.Lifecycle.Outbox.{Entry, require_identity_delivery}
use rsp_website.Lifecycle.Statements.{
  Call, find_user, bump, update_user, delete_sessions, enqueue_event,
}

-- the transaction of `revokeSessions`
pub revoke_sessions_tx : String → SessionRevocationReason → Call → Tx (ℕ × Entry)
unfolding delete_sessions update_user enqueue_event bump
revoke_sessions_tx uid reason c = do
  revoked ← delete_sessions uid
  updated ← update_user uid (bump c.now)
  version ← version_or_throw updated user_not_found
  entry ← enqueue_event (sessions_revoked reason) uid version c
  pure (revoked, entry)

pub revoke_sessions : String → SessionRevocationReason → Call → Tx ℕ
revoke_sessions uid reason c = do
  (revoked, entry) ← in_transaction (revoke_sessions_tx uid reason c)
  require_identity_delivery entry c.attempt
  pure revoked

pub record_mfa_state_tx : String → Bool → Call → Tx Entry
unfolding delete_sessions update_user enqueue_event bump
record_mfa_state_tx uid configured c = do
  delete_sessions uid
  updated ← update_user uid (bump c.now)
  version ← version_or_throw updated user_not_found
  enqueue_event (if configured then mfa_configured else mfa_disabled) uid version c

pub record_mfa_state : String → Bool → Call → Tx (Unit {0})
record_mfa_state uid configured c = do
  entry ← in_transaction (record_mfa_state_tx uid configured c)
  require_identity_delivery entry c.attempt

-- the states whose suspension cannot be changed
abbrev pub is_deleting : AccountState → Bool
is_deleting deleted = true
is_deleting deletion_pending = true
is_deleting _ = false

abbrev pub suspension_state : Bool → AccountState
suspension_state true = suspended
suspension_state false = active

unfoldable pub set_state : AccountState → ℕ → User → User
unfolding bump
set_state state now u = record (bump now u) { account_state = state }

pub record SuspensionOptions : Type 0 where
  pub reason : Option String
  pub actor_user_id : Option String

abbrev is_active : AccountState → Bool
is_active active = true
is_active _ = false

-- `if (suspended && account_state === 'active') nextAccountState(…)`, for its exception alone
check_suspend : Bool → AccountState → Tx (Unit {0})
unfolding next_account_state
check_suspend suspend state =
    if suspend && is_active state
    then or_throw (next_account_state state LifecycleCommand.suspend) invalid_transition >> pure tt
    else pure tt

-- `...(actorUserId ? { actorUserId } : {})`
abbrev pub non_empty : Option String → Option String
non_empty none = none
non_empty (some s) = if str_eq s "" then none else some s

pub set_suspended_tx : String → Bool → SuspensionOptions → Call → Tx Entry
unfolding update_user delete_sessions enqueue_event set_state find_user check_suspend
set_suspended_tx uid suspend o c = do
  account ← or_throw (← gets (find_user uid)) user_not_found
  throw_if (is_deleting account.account_state) suspension_refused
  check_suspend suspend account.account_state
  updated ← update_user uid (set_state (suspension_state suspend) c.now)
  delete_sessions uid
  version ← version_or_throw updated user_not_found
  enqueue_event
      (account_state_changed (suspension_state suspend)
        (or_default o.reason (if suspend then "suspension" else "security_admin"))
        (non_empty o.actor_user_id))
      uid version c

pub set_suspended : String → Bool → SuspensionOptions → Call → Tx (Unit {0})
set_suspended uid suspend o c = do
  entry ← in_transaction (set_suspended_tx uid suspend o c)
  require_identity_delivery entry c.attempt
