-- ===== src/Lifecycle/Tx.antt =====
-- Statements on the database as actions that return a value or throw. What was written before a
-- throw stays written, until `in_transaction` rolls it back.
use rsp_website.Prelude.{Bool, Option, none, some, ℕ, zero, suc, if◌then◌else◌}
use rsp_website.Lifecycle.Store.{Db}

pub data Error : Type 0 where
  -- `new Error('auth user not found')`
  user_not_found : Error
  -- an invalid account lifecycle transition
  invalid_transition : Error
  -- "cannot change suspension for … account"
  suspension_refused : Error
  not_recoverable not_deletion_pending grace_not_elapsed : Error
  invalid_recovery_token : Error
  synchronization_pending : Error
  event_not_queued : Error
  out_of_range : Error
  -- the errors of the hooks in apps/auth/src/auth.ts
  version_not_found account_unavailable session_not_found : Error
  -- those of the server (apps/auth/src/server.ts) and of the runtime
  invalid_url body_too_large malformed_uri library_failed : Error
  -- a table constraint refuses the row
  constraint_violation : Error

pub data Result {ℓ} (A : Type ℓ) : Type ℓ where
  ok : A → Result A
  err : Error → Result A

abbrev pub Tx : Type 0 → Type 0
Tx A = Db → Result A × Db

module _ {A : Type 0} where
  abbrev pub pure : A → Tx A
  pure a db = (ok a, db)

  abbrev pub throw : Error → Tx A
  throw e db = (err e, db)

  -- a `SELECT`
  abbrev pub gets : (Db → A) → Tx A
  gets f db = (ok (f db), db)

  -- `if (!row) throw …`
  abbrev pub or_throw : Option A → Error → Tx A
  or_throw none e = throw e
  or_throw (some a) _ = pure a

abbrev pub continue : {A B : Type 0} → Result A × Db → (A → Tx B) → Result B × Db
continue (ok a, db) f = f a db
continue (err e, db) f = (err e, db)

infixl 5 ◌>>=◌ ◌>>◌
abbrev pub ◌>>=◌ : {A B : Type 0} → Tx A → (A → Tx B) → Tx B
◌>>=◌ m f db = continue (m db) f

abbrev pub ◌>>◌ : {A B : Type 0} → Tx A → Tx B → Tx B
m >> k = m >>= λ _. k

-- an `INSERT`, `UPDATE` or `DELETE` without `RETURNING`
abbrev pub modify : (Db → Db) → Tx (Unit {0})
modify f db = (ok tt, f db)

abbrev pub throw_if : Bool → Error → Tx (Unit {0})
throw_if c e db = (if c then err e else ok tt, db)

-- `if (!securityVersion) throw …`: no row was updated, or the version is 0
abbrev pub version_or_throw : Option ℕ → Error → Tx ℕ
version_or_throw none e = throw e
version_or_throw (some zero) e = throw e
version_or_throw (some (suc v)) e = pure (suc v)

-- `inTransaction`: COMMIT keeps what the operation wrote, and a throw rolls it all back.
abbrev pub rollback : {A : Type 0} → Db → Result A × Db → Result A × Db
rollback before (ok a, after) = (ok a, after)
rollback before (err e, _) = (err e, before)

abbrev pub in_transaction : {A : Type 0} → Tx A → Tx A
in_transaction operation db = rollback db (operation db)
