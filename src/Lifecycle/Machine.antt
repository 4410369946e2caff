-- ===== src/Lifecycle/Machine.antt =====
-- The account lifecycle as an abstract state machine, which the operations of
-- apps/auth/src/lifecycle/service.ts refine: what one operation may do to one account.
pub mod Updates
pub mod Effects
pub mod Refinement
pub mod Removal
pub mod Sweeps
pub mod Hooks
pub mod Requests
use rsp_website.Prelude.{ℕ, ◌+◌, ◌<◌, ◌≡◌, ◌⊎◌, Bool, true, false, Option, none, some, is_some}
use rsp_website.Security.AccessPolicy.{active, deletion_pending, deleted}
use rsp_website.Lifecycle.Store.{User}
use rsp_website.Lifecycle.Service.{is_deleting}
use rsp_website.Lifecycle.Deletion.{is_pending_state}

-- The dates of the deletion are as they were.
abbrev pub HasSameDates : User → User → Type 0
HasSameDates u v =
    (v.deletion_requested_at ≡ u.deletion_requested_at)
    × (v.deletion_recovery_deadline ≡ u.deletion_recovery_deadline)

abbrev pub HasNoDates : User → Type 0
HasNoDates v = (v.deletion_requested_at ≡ none) × (v.deletion_recovery_deadline ≡ none)

-- The edges of the machine.
pub data Transition (u v : User) : Type 0 where
  renewed : v.account_state ≡ u.account_state → HasSameDates u v → Transition u v
  switched :
      is_deleting u.account_state ≡ false
      → is_deleting v.account_state ≡ false
      → HasSameDates u v
      → Transition u v
  requested :
      is_deleting u.account_state ≡ false
      → v.account_state ≡ deletion_pending
      → is_some v.deletion_requested_at ≡ true
      → is_some v.deletion_recovery_deadline ≡ true
      → Transition u v
  restored :
      is_pending_state u.account_state ≡ true
      → v.account_state ≡ active
      → HasNoDates v
      → Transition u v
  erased :
      is_pending_state u.account_state ≡ true
      → v.account_state ≡ deleted
      → HasNoDates v
      → Transition u v

-- Every edge raises the security version by one.
pub record AccountStep (u v : User) : Type 0 where
  pub same_id : v.id ≡ u.id
  pub next_version : v.security_version ≡ u.security_version + 1
  pub edge : Transition u v

-- a row as the schema of Better Auth creates it
abbrev pub IsNew : User → Type 0
IsNew v = (v.account_state ≡ active) × (v.security_version ≡ 1) × HasNoDates v

-- A change of the columns that are no part of the lifecycle.
pub record IsEdit (u v : User) : Type 0 where
  pub same_id : v.id ≡ u.id
  pub same_version : v.security_version ≡ u.security_version
  pub same_state : v.account_state ≡ u.account_state
  pub same_dates : HasSameDates u v

-- What an operation may do to the account with one ID.
pub data Evolution (before after : Option User) : Type 0 where
  unchanged : after ≡ before → Evolution before after
  stepped :
      (u v : User) → before ≡ some u → after ≡ some v → AccountStep u v → Evolution before after
  edited : (u v : User) → before ≡ some u → after ≡ some v → IsEdit u v → Evolution before after
  created : (v : User) → before ≡ none → after ≡ some v → IsNew v → Evolution before after

-- The columns of a row agree: the version is positive, and the dates are there exactly while the
-- deletion is pending.
pub record IsValid (u : User) : Type 0 where
  pub positive : 0 < u.security_version
  pub requested_iff : is_some u.deletion_requested_at ≡ is_pending_state u.account_state
  pub deadline_iff : is_some u.deletion_recovery_deadline ≡ is_pending_state u.account_state

abbrev pub IsValidRow : Option User → Type 0
IsValidRow none = Unit
IsValidRow (some u) = IsValid u
