-- ===== src/Lifecycle/Policy.antt =====
-- apps/auth/src/lifecycle/policy.ts: the transition table of account states.
use rsp_website.Prelude.{ℕ, Bool, false, Option, none, some, ltb}
use rsp_website.Security.AccessPolicy.{AccountState, active, suspended, deletion_pending, deleted}

pub data LifecycleCommand : Type 0 where
  suspend request_deletion cancel_deletion pseudonymize : LifecycleCommand

-- `none` is the error "invalid account lifecycle transition"
unfoldable pub next_account_state : AccountState → LifecycleCommand → Option AccountState
next_account_state active suspend = some suspended
next_account_state active request_deletion = some deletion_pending
next_account_state suspended request_deletion = some deletion_pending
next_account_state deletion_pending cancel_deletion = some active
next_account_state deletion_pending pseudonymize = some deleted
next_account_state _ _ = none

-- `recoveryDeadline !== null && recoveryDeadline > now`
abbrev deadline_after : Option ℕ → ℕ → Bool
deadline_after none now = false
deadline_after (some d) now = ltb now d

unfoldable pub is_deletion_recoverable : AccountState → Option ℕ → ℕ → Bool
is_deletion_recoverable deletion_pending deadline now = deadline_after deadline now
is_deletion_recoverable _ deadline now = false
