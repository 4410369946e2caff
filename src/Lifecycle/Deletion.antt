-- ===== src/Lifecycle/Deletion.antt =====
-- Requesting the deletion of an account and taking the request back
-- (apps/auth/src/lifecycle/service.ts). The runtime's parts are parameters: `hash` is the SHA-256 of
-- a token in hexadecimal, `add_token` puts a token into a URL, `iso` is `toISOString`.
pub mod Request
pub mod Cancel
pub mod Effects
pub mod Recovery
pub mod Recovering
use mathlib.Core.Option
use rsp_website.Prelude.{
  ℕ, ◌+◌, String, Bool, true, false, not, ◌&&◌, ◌||◌, Option, none, some, List, [], ◌∷◌, leb, ltb,
  ◌==◌, if◌then◌else◌, str_eq, length, every, is_some, codes, Text, find_row, select_rows,
  update_rows, some_of,
}
use rsp_website.Security.AccessPolicy.{AccountState, active, deletion_pending}
use rsp_website.Lifecycle.Policy.{
  request_deletion, cancel_deletion, next_account_state, is_deletion_recoverable,
}
use rsp_website.Lifecycle.Store.{
  Db, User, RecoveryToken, deletion_requested, deletion_cancelled, email,
}
use rsp_website.Lifecycle.Tx.{
  Error, user_not_found, invalid_transition, not_recoverable, invalid_recovery_token,
  constraint_violation, Result, ok, err, Tx, pure, throw, gets, or_throw, ◌>>=◌, ◌>>◌, modify,
  throw_if, version_or_throw, in_transaction,
}
use rsp_website.Lifecycle.Outbox.{
  Attempt, Entry, enqueue_outbox, deliver_best_effort, require_identity_delivery,
}
use rsp_website.Lifecycle.Statements.{
  Call, of_user, find_user, bump, update_user, delete_sessions, enqueue_event,
}
use rsp_website.Email.Templates.{deletion_recovery_email}

-- `used_at IS NULL AND revoked_at IS NULL`
abbrev pub is_open : RecoveryToken → Bool
is_open t = not (is_some t.used_at) && not (is_some t.revoked_at)

abbrev pub is_open_of : String → RecoveryToken → Bool
is_open_of uid t = str_eq t.user_id uid && is_open t

unfoldable pub revoke : ℕ → RecoveryToken → RecoveryToken
revoke now t = record t { revoked_at = some now }

unfoldable pub revoke_open_tokens : String → ℕ → Db → Db
unfolding revoke
revoke_open_tokens uid now db = record db {
  recovery_tokens = update_rows (is_open_of uid) (revoke now) db.recovery_tokens;
}

-- The constraints of the table: the window is not empty, ID and hash are unique, and an account has
-- one open token at most.
unfoldable pub is_refused : RecoveryToken → List RecoveryToken → Bool
is_refused t rows =
    leb t.expires_at t.requested_at
    || some_of (λ r. str_eq r.id t.id || str_eq r.token_hash t.token_hash || is_open_of t.user_id r)
        rows

pub insert_token : RecoveryToken → Tx (Unit {0})
unfolding is_refused
insert_token t = do
  throw_if (← gets (λ db. is_refused t db.recovery_tokens)) constraint_violation
  modify (λ db. record db { recovery_tokens = t ∷ db.recovery_tokens })

unfoldable pub mark_pending : ℕ → ℕ → User → User
unfolding bump
mark_pending now deadline u = record (bump now u) {
  account_state = deletion_pending;
  deletion_requested_at = some now;
  deletion_recovery_deadline = some deadline;
}

unfoldable pub mark_active : ℕ → User → User
unfolding bump
mark_active now u = record (bump now u) {
  account_state = active;
  deletion_requested_at = none;
  deletion_recovery_deadline = none;
}

-- the options of `requestDeletion`, the token that it draws, and what its email needs
pub record DeletionRequest : Type 0 where
  pub auth_user_id : String
  pub recovery_url : Text
  pub recovery_deadline : ℕ
  pub token : Text
  pub token_id : String
  pub email_id : String
  pub email_attempt : Attempt

module _ (hash : Text → String) (add_token : Text → Text → Text) (iso : ℕ → Text) where
  unfoldable pub new_token : DeletionRequest → ℕ → RecoveryToken
  new_token q now = record {
    id = q.token_id;
    user_id = q.auth_user_id;
    token_hash = hash q.token;
    requested_at = now;
    expires_at = q.recovery_deadline;
    used_at = none;
    revoked_at = none;
  }

  pub request_deletion_tx : DeletionRequest → Call → Tx (Entry × Entry)
  unfolding find_user revoke_open_tokens insert_token new_token update_user mark_pending
      delete_sessions enqueue_event
  request_deletion_tx q c = do
    account ← or_throw (← gets (find_user q.auth_user_id)) user_not_found
    or_throw (next_account_state account.account_state request_deletion) invalid_transition
    modify (revoke_open_tokens q.auth_user_id c.now)
    insert_token (new_token q c.now)
    updated ← update_user q.auth_user_id (mark_pending c.now q.recovery_deadline)
    delete_sessions q.auth_user_id
    version ← version_or_throw updated user_not_found
    message ←
        enqueue_outbox q.email_id
          (email (
            deletion_recovery_email account.email (add_token q.recovery_url q.token)
              (iso q.recovery_deadline)))
          c.now
    event ← enqueue_event (deletion_requested q.recovery_deadline) q.auth_user_id version c
    pure (message, event)

  unfoldable pub request_deletion_of : DeletionRequest → Call → Tx (Unit {0})
  request_deletion_of q c = do
    (message, event) ← in_transaction (request_deletion_tx q c)
    modify (deliver_best_effort ((message, q.email_attempt) ∷ []))
    require_identity_delivery event c.attempt

pub cancel_deletion_tx : String → Call → Tx Entry
unfolding find_user update_user mark_active revoke_open_tokens enqueue_event
cancel_deletion_tx uid c = do
  account ← or_throw (← gets (find_user uid)) user_not_found
  throw_if
      (not (is_deletion_recoverable account.account_state account.deletion_recovery_deadline c.now))
      not_recoverable
  or_throw (next_account_state account.account_state cancel_deletion) invalid_transition
  updated ← update_user uid (mark_active c.now)
  modify (revoke_open_tokens uid c.now)
  version ← version_or_throw updated user_not_found
  enqueue_event deletion_cancelled uid version c

pub cancel_deletion_of : String → Call → Tx (Unit {0})
cancel_deletion_of uid c = do
  entry ← in_transaction (cancel_deletion_tx uid c)
  require_identity_delivery entry c.attempt

-- `[A-Za-z0-9_-]`
unfoldable pub is_token_code : ℕ → Bool
is_token_code c =
    leb b'A' c && leb c b'Z'
    || leb b'a' c && leb c b'z'
    || leb b'0' c && leb c b'9'
    || c == b'_'
    || c == b'-'

unfoldable pub is_token : Text → Bool
unfolding is_token_code
is_token t = every is_token_code t && leb 32 (length t) && leb (length t) 128

abbrev pub is_open_hash : String → RecoveryToken → Bool
is_open_hash h t = str_eq t.token_hash h && is_open t

unfoldable pub use_token : ℕ → RecoveryToken → RecoveryToken
use_token now t = record t { used_at = some now }

-- the open token with the hash, joined with its account
unfoldable pub find_recovery : String → Db → Option (RecoveryToken × User)
unfolding find_user
find_recovery h db =
    Option.bind (find_row (is_open_hash h) db.recovery_tokens)
      λ t. Option.map (λ u. (t, u)) (find_user t.user_id db)

unfoldable pub can_recover : ℕ → RecoveryToken × User → Bool
can_recover now (t, u) =
    ltb now t.expires_at && is_deletion_recoverable u.account_state u.deletion_recovery_deadline now

-- `WHERE id = $1 AND account_state = 'deletion_pending' RETURNING security_version`
abbrev pub is_pending_state : AccountState → Bool
is_pending_state deletion_pending = true
is_pending_state _ = false

abbrev pub is_pending_user : String → User → Bool
is_pending_user uid u = str_eq u.id uid && is_pending_state u.account_state

unfoldable pub update_pending : String → (User → User) → Tx (Option ℕ)
update_pending uid f db = (
  ok (Option.map (λ u. (f u).security_version) (find_row (is_pending_user uid) db.users)),
  record db { users = update_rows (is_pending_user uid) f db.users },
)

-- `UPDATE … SET used_at`; the value is the number of rows
pub consume_token : String → ℕ → Tx ℕ
unfolding use_token
consume_token h now db = (
  ok (length (select_rows (is_open_hash h) db.recovery_tokens)),
  record db { recovery_tokens = update_rows (is_open_hash h) (use_token now) db.recovery_tokens },
)

pub recover_tx : String → Call → Tx Entry
unfolding find_recovery can_recover update_pending consume_token mark_active enqueue_event
recover_tx h c = do
  (t, account) ← or_throw (← gets (find_recovery h)) invalid_recovery_token
  throw_if (not (can_recover c.now (t, account))) invalid_recovery_token
  consumed ← consume_token h c.now
  throw_if (not (consumed == 1)) invalid_recovery_token
  updated ← update_pending t.user_id (mark_active c.now)
  version ← version_or_throw updated invalid_recovery_token
  enqueue_event deletion_cancelled t.user_id version c

-- `cancelDeletionWithRecoveryToken`
unfoldable pub recover : (Text → String) → Text → Call → Tx (Unit {0})
unfolding is_token
recover hash token c = if not (is_token token) then throw invalid_recovery_token else do
  entry ← in_transaction (recover_tx (hash token) c)
  require_identity_delivery entry c.attempt
