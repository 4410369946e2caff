-- ===== src/Lifecycle/Statements.antt =====
-- The statements that the operations of `AccountLifecycleService` share
-- (apps/auth/src/lifecycle/service.ts).
pub mod Lookups
pub mod Commits
use mathlib.Core.Option
use rsp_website.Prelude.{
  ℕ, ◌+◌, String, Bool, true, false, Option, none, some, List, [], ◌∷◌, str_eq, length, find_row,
  select_rows, update_rows, delete_rows,
}
use rsp_website.Lifecycle.Store.{Db, User, Session, EventKind, IdentityEvent, identity}
use rsp_website.Lifecycle.Tx.{Result, ok, err, Tx}
use rsp_website.Lifecycle.Outbox.{Attempt, Entry, enqueue_outbox}

-- What one call of an operation draws from outside: `occurredAt`, the UUID of its event, and how the
-- delivery of the event goes.
pub record Call : Type 0 where
  pub now : ℕ
  pub event_id : String
  pub attempt : Attempt

abbrev pub of_user : String → User → Bool
of_user uid u = str_eq u.id uid

-- `SELECT … FROM users WHERE id = $1`
unfoldable pub find_user : String → Db → Option User
find_user uid db = find_row (of_user uid) db.users

-- `security_version = security_version + 1, updated_at = $2`
unfoldable pub bump : ℕ → User → User
bump now u = record u { security_version = u.security_version + 1; updated_at = now }

-- `UPDATE users SET … WHERE id = $1 RETURNING security_version`
unfoldable pub update_user : String → (User → User) → Tx (Option ℕ)
unfolding find_user
update_user uid f db =
    let db' = record db { users = update_rows (of_user uid) f db.users } in
    (ok (Option.map (λ u. u.security_version) (find_user uid db')), db')

abbrev pub session_of : String → Session → Bool
session_of uid s = str_eq s.user_id uid

-- `DELETE FROM sessions WHERE user_id = $1`; the value is the number of rows
unfoldable pub delete_sessions : String → Tx ℕ
delete_sessions uid db = (
  ok (length (select_rows (session_of uid) db.sessions)),
  record db { sessions = delete_rows (session_of uid) db.sessions },
)

abbrev pub event_of : EventKind → String → ℕ → ℕ → IdentityEvent
event_of kind uid version now = record {
  kind = kind;
  auth_user_id = uid;
  security_version = version;
  occurred_at = now;
}

unfoldable pub enqueue_event : EventKind → String → ℕ → Call → Tx Entry
enqueue_event kind uid version c =
    enqueue_outbox c.event_id (identity (event_of kind uid version c.now)) c.now
