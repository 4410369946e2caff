-- ===== src/Lifecycle/Erasure.antt =====
-- The pseudonymisation of accounts whose grace period is over (apps/auth/src/lifecycle/service.ts).
-- Transactions run one at a time, so no row is locked by another sweep.
pub mod Outcome
pub mod Erased
pub mod Batch
use mathlib.Core.Option
use Prim.Native.String.{compare}
use Prim.Native.String
use text.Mathlib.Text.{is_le}
use rsp_website.Prelude.{
  ℕ, zero, suc, ◌+◌, String, Bool, true, false, not, ◌&&◌, ◌||◌, Option, none, some, List, [], ◌∷◌,
  map, leb, ltb, if◌then◌else◌, str_eq, length, select_rows, codes, text_eq, find_row, update_rows,
  delete_rows, some_of, sort_by, take,
}
use rsp_website.Prelude.Texts.{to_lower}
use rsp_website.Security.AccessPolicy.{AccountState, deletion_pending, deleted}
use rsp_website.Lifecycle.Policy.{pseudonymize, next_account_state}
use rsp_website.Lifecycle.Store.{
  Db, User, Session, Account, TwoFactor, Verification, RecoveryToken, OutboxRow, Payload, identity,
  email, auth_pseudonymized,
}
use rsp_website.Lifecycle.Tx.{
  Error, user_not_found, invalid_transition, not_deletion_pending, grace_not_elapsed, out_of_range,
  constraint_violation, Result, ok, err, Tx, pure, throw, gets, or_throw, ◌>>=◌, ◌>>◌, modify,
  throw_if, version_or_throw, in_transaction,
}
use rsp_website.Lifecycle.Outbox.{Attempt, Entry, deliver_best_effort, require_identity_delivery}
use rsp_website.Lifecycle.Statements.{
  Call, of_user, find_user, bump, update_user, delete_sessions, enqueue_event,
}
use rsp_website.Lifecycle.Deletion.{is_pending_state, is_pending_user, update_pending}

abbrev pub same_lower : String → String → Bool
same_lower a b = text_eq (to_lower (codes a)) (to_lower (codes b))

-- `payload->>'authUserId' = $1 OR (target = 'email' AND lower(payload->>'to') = lower($2))`
unfoldable pub concerns : String → String → Payload → Bool
concerns uid address (identity e) = str_eq e.auth_user_id uid
concerns uid address (email m) = same_lower m.to address

-- The deletes of `pseudonymize` and of `erasePseudonymizedAccountArtifacts`.
unfoldable pub erase_account : String → String → Db → Db
unfolding concerns
erase_account uid address db = record db {
  sessions = delete_rows (λ s. str_eq s.user_id uid) db.sessions;
  accounts = delete_rows (λ a. str_eq a.user_id uid) db.accounts;
  two_factors = delete_rows (λ t. str_eq t.user_id uid) db.two_factors;
  verifications =
      delete_rows (λ v. str_eq v.identifier address || str_eq v.value uid) db.verifications;
  recovery_tokens = delete_rows (λ t. str_eq t.user_id uid) db.recovery_tokens;
  outbox = delete_rows (λ r. concerns uid address r.payload) db.outbox;
}

unfoldable pub reserved_email : String → String
reserved_email uid = String.◌++◌ "deleted+" (String.◌++◌ uid "@invalid.rsp.local")

unfoldable pub mark_deleted : ℕ → User → User
unfolding bump reserved_email
mark_deleted now u = record (bump now u) {
  name = "Deleted member";
  email = reserved_email u.id;
  email_verified = false;
  image = none;
  account_state = deleted;
  deletion_requested_at = none;
  deletion_recovery_deadline = none;
  two_factor_enabled = false;
}

-- Addresses are unique: another account that has the reserved one makes the update fail.
unfoldable pub is_taken : String → List User → Bool
unfolding reserved_email
is_taken uid users =
    some_of (λ u. str_eq u.email (reserved_email uid) && not (str_eq u.id uid)) users

-- `!deadline || deadline > now`
abbrev pub is_early : Option ℕ → ℕ → Bool
is_early none now = true
is_early (some d) now = ltb now d

-- what happens to an account once it is chosen
pub pseudonymize_tx : String → Call → Tx Entry
unfolding find_user erase_account is_taken update_user mark_deleted enqueue_event
pseudonymize_tx uid c = do
  account ← or_throw (← gets (find_user uid)) user_not_found
  throw_if (not (is_pending_state account.account_state)) not_deletion_pending
  throw_if (is_early account.deletion_recovery_deadline c.now) grace_not_elapsed
  or_throw (next_account_state account.account_state pseudonymize) invalid_transition
  modify (erase_account uid account.email)
  throw_if (← gets (λ db. is_taken uid db.users)) constraint_violation
  updated ← update_user uid (mark_deleted c.now)
  version ← version_or_throw updated user_not_found
  enqueue_event auth_pseudonymized uid version c

pub pseudonymize_of : String → Call → Tx (Unit {0})
pseudonymize_of uid c = do
  entry ← in_transaction (pseudonymize_tx uid c)
  require_identity_delivery entry c.attempt

-- `deletion_recovery_deadline <= $1`, false where it is null
abbrev pub has_passed : Option ℕ → ℕ → Bool
has_passed none now = false
has_passed (some d) now = leb d now

unfoldable pub is_due_user : ℕ → User → Bool
is_due_user now u = is_pending_state u.account_state && has_passed u.deletion_recovery_deadline now

abbrev pub deadline_of : User → ℕ
deadline_of u = elim (u.deletion_recovery_deadline) [ none ↦ 0 | some d ↦ d ]

-- `ORDER BY deletion_recovery_deadline, id`
unfoldable pub is_before : User → User → Bool
is_before u v =
    if ltb (deadline_of u) (deadline_of v)
    then true
    else if ltb (deadline_of v) (deadline_of u)
    then false
    else is_le (compare u.id v.id)

unfoldable pub due_users : ℕ → ℕ → Db → List User
unfolding is_due_user is_before
due_users limit now db = take limit (sort_by is_before (select_rows (is_due_user now) db.users))

-- What a sweep draws from outside for each account: the UUID of its event and how its delivery goes.
pub record Draw : Type 0 where
  pub event_id : String
  pub attempt : Attempt

abbrev no_attempt : Draw → ℕ → Call
no_attempt d now = record { now = now; event_id = d.event_id; attempt = d.attempt }

-- the unique address is checked only if a row is updated
unfoldable pub is_blocked : String → List User → Bool
unfolding is_taken
is_blocked uid users = some_of (is_pending_user uid) users && is_taken uid users

-- `if (securityVersion) events.push(…)`
unfoldable pub announce : String → Option ℕ → Draw → ℕ → Tx (Option Entry)
unfolding enqueue_event
announce uid none d now = pure none
announce uid (some zero) d now = pure none
announce uid (some (suc v)) d now = do
  entry ← enqueue_event auth_pseudonymized uid (suc v) (no_attempt d now)
  pure (some entry)

-- the body of the loop
unfoldable pub erase_one : User → Draw → ℕ → Tx (Option Entry)
unfolding erase_account is_blocked update_pending mark_deleted announce
erase_one account d now = do
  modify (erase_account account.id account.email)
  throw_if (← gets (λ db. is_blocked account.id db.users)) constraint_violation
  updated ← update_pending account.id (mark_deleted now)
  announce account.id updated d now

abbrev pub push_event : Option Entry → Attempt → List (Entry × Attempt) → List (Entry × Attempt)
push_event none a events = events
push_event (some e) a events = (e, a) ∷ events

unfoldable pub erase_each : (String → Draw) → List User → ℕ → Tx (List (Entry × Attempt))
unfolding erase_one
erase_each draw [] now = pure []
erase_each draw (account ∷ rest) now = do
  event ← erase_one account (draw account.id) now
  events ← erase_each draw rest now
  pure (push_event event (draw account.id).attempt events)

unfoldable pub pseudonymize_due_tx : ℕ → (String → Draw) → ℕ → Tx (List (Entry × Attempt))
unfolding due_users erase_each
pseudonymize_due_tx limit draw now = do due ← gets (due_users limit now); erase_each draw due now

-- The value is the number of accounts pseudonymised.
unfoldable pub pseudonymize_due : ℕ → (String → Draw) → ℕ → Tx ℕ
unfolding pseudonymize_due_tx
pseudonymize_due limit draw now = if ltb limit 1 || ltb 100 limit then throw out_of_range else do
  events ← in_transaction (pseudonymize_due_tx limit draw now)
  modify (deliver_best_effort events)
  pure (length events)
