-- ===== src/Lifecycle/Statements/Commits.antt =====
-- What a committed change of one account leaves behind, and what the delivery of its event adds.
use mathlib.Core.Option
use mathlib.Core.Bool.{true≢false}
use rsp_website.Prelude.{
  inl, inr, ◌⊎◌, sym, Bool-cases, ℕ, ◌≡◌, refl, ◌≢◌, ◌∙◌, String, false, Option, none, some, ◌∷◌,
  arith, All, str_eq, eq_iff, if◌then◌else◌, update_rows, delete_rows,
}
use rsp_website.Prelude.Tables.{All-deleted}
use rsp_website.Lifecycle.Store.{Db, User, EventKind, identity}
use rsp_website.Lifecycle.Tx.{err, ok, continue, pure, synchronization_pending}
use rsp_website.Lifecycle.Outbox.{Attempt, Entry, new_row, require_identity_delivery}
use rsp_website.Lifecycle.Statements.{Call, of_user, session_of, find_user, update_user, event_of}
use rsp_website.Lifecycle.Statements.Lookups.{
  KeepsId, update_user_found, find_user-update_user, find_user-id,
}

abbrev pub entry_for : String → EventKind → ℕ → Call → Entry
entry_for uid kind version c = record {
  id = c.event_id;
  payload = identity (event_of kind uid version c.now);
}

-- The account is changed by `f`, its sessions are gone, and the event of the given kind and version
-- waits in the outbox.
abbrev pub committed_db : String → (User → User) → EventKind → ℕ → Call → Db → Db
committed_db uid f kind version c db = record db {
  users = update_rows (of_user uid) f db.users;
  sessions = delete_rows (session_of uid) db.sessions;
  outbox = new_row c.event_id (identity (event_of kind uid version c.now)) c.now ∷ db.outbox;
}

-- No session of the account is left.
abbrev pub IsSignedOut : String → Db → Type 0
IsSignedOut uid db = All (λ s. session_of uid s ≡ false) db.sessions

pub committed_db-IsSignedOut :
    (uid : String) (f : User → User) (kind : EventKind) (version : ℕ) (c : Call) (db : Db)
    → IsSignedOut uid (committed_db uid f kind version c db)
committed_db-IsSignedOut uid f kind version c db = All-deleted (session_of uid) db.sessions

pub find_user-users :
    (uid : String) (a b : Db) → a.users ≡ b.users → find_user uid a ≡ find_user uid b
unfolding find_user
find_user-users uid a b e = rw e refl

pub find_user-committed_db :
    (uid : String) (f : User → User) (kind : EventKind) (version : ℕ) (c : Call) (db : Db)
    (u : User)
    → KeepsId f
    → find_user uid db ≡ some u
    → find_user uid (committed_db uid f kind version c db) ≡ some (f u)
unfolding update_user
find_user-committed_db uid f kind version c db u keep e =
    find_user-users uid (committed_db uid f kind version c db) (update_user uid f db).1 refl
    ∙ update_user_found uid f db u keep e

same_unless :
    (uid : String) (f : User → User) (o : Option User) (other : String)
    → ((u : User) → o ≡ some u → u.id ≡ other)
    → other ≢ uid
    → Option.map (λ u. if str_eq u.id uid then f u else u) o ≡ o
same_unless uid f none other named ne = refl
same_unless uid f (some u) other named ne = ground (arith, eq_iff u.id uid, named u refl)

pub find_user-committed_db_ne :
    (uid other : String) (f : User → User) (kind : EventKind) (version : ℕ) (c : Call) (db : Db)
    → KeepsId f
    → other ≢ uid
    → find_user other (committed_db uid f kind version c db) ≡ find_user other db
unfolding update_user
find_user-committed_db_ne uid other f kind version c db keep ne =
    find_user-users other (committed_db uid f kind version c db) (update_user uid f db).1 refl
    ∙ find_user-update_user uid other f db keep
    ∙ same_unless uid f (find_user other db) other (λ u e. find_user-id other db u e) ne

-- Where the accounts are as a commit leaves them, those that it does not name are as they were.
pub others_alone :
    (uid : String) (f : User → User) (kind : EventKind) (version : ℕ) (c : Call) (db after : Db)
    → KeepsId f
    → after.users ≡ (committed_db uid f kind version c db).users
    → (other : String) → (other ≡ uid) ⊎ (find_user other after ≡ find_user other db)
others_alone uid f kind version c db after keep same other = elim (Bool-cases (str_eq other uid)) [
  | inl e ↦ inl ((eq_iff other uid).0 e)
  | inr e ↦ inr (
      find_user-users other after (committed_db uid f kind version c db) same
      ∙ find_user-committed_db_ne uid other f kind version c db keep
          (λ h. true≢false (sym ((eq_iff other uid).1 h) ∙ e)))
]

-- The delivery of an event touches the outbox alone, and ends well or with the error that a retry is
-- pending.
pub delivery_users :
    (e : Entry) (a : Attempt) (db : Db)
    → ((require_identity_delivery e a db).1.users ≡ db.users)
      × ((require_identity_delivery e a db).1.sessions ≡ db.sessions)
      × ((require_identity_delivery e a db).1.recovery_tokens ≡ db.recovery_tokens)
unfolding require_identity_delivery
delivery_users e a db = (refl, refl, refl)

-- What an operation has done to the account that it names: it is changed by `f`, it is signed out
-- everywhere, and every other account is as it was.
pub record IsCutOff (uid : String) (f : User → User) (account : User) (before after : Db)
    : Type 0 where
  pub changed : find_user uid after ≡ some (f account)
  pub signed_out : IsSignedOut uid after
  pub others : (other : String) → (other ≡ uid) ⊎ (find_user other after ≡ find_user other before)

pub committed_db-IsCutOff :
    (uid : String) (f : User → User) (kind : EventKind) (version : ℕ) (c : Call) (db : Db)
    (u : User) (e : Entry) (a : Attempt)
    → KeepsId f
    → find_user uid db ≡ some u
    → IsCutOff uid f u db (require_identity_delivery e a (committed_db uid f kind version c db)).1
unfolding require_identity_delivery
committed_db-IsCutOff uid f kind version c db u e a keep found = record {
  changed =
      find_user-users uid _ (committed_db uid f kind version c db) refl
      ∙ find_user-committed_db uid f kind version c db u keep found;
  signed_out = committed_db-IsSignedOut uid f kind version c db;
  others =
      others_alone uid f kind version c db
        (require_identity_delivery e a (committed_db uid f kind version c db)).1 keep refl;
}

-- A value returned behind the delivery changes nothing more.
pub delivery_value :
    {A : Type 0} (e : Entry) (a : Attempt) (db : Db) (v : A)
    → ((continue (require_identity_delivery e a db) (λ _. pure v)).1
        ≡ (require_identity_delivery e a db).1)
      × (((continue (require_identity_delivery e a db) (λ _. pure v)).0 ≡ ok v)
          ⊎ ((continue (require_identity_delivery e a db) (λ _. pure v)).0
              ≡ err synchronization_pending))
unfolding require_identity_delivery
delivery_value e a db v = (ground arith, ground arith)
