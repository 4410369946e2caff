-- ===== src/Lifecycle/Service/Suspension.antt =====
-- `setSuspended`, on every branch, and what it guarantees once it is committed.
use mathlib.Core.Path.{subst}
use rsp_website.Security.AccessPolicy.{active, suspended}
use rsp_website.Prelude.{
  ℕ, ◌+◌, ◌≡◌, refl, ap, String, Bool, true, false, Option, none, some, arith, if◌then◌else◌,
  or_default, Option-cases, inl, inr,
}
use rsp_website.Lifecycle.Store.{Db, User, account_state_changed, EventKind}
use rsp_website.Lifecycle.Tx.{
  Result, ok, err, continue, user_not_found, suspension_refused, constraint_violation,
  in_transaction,
}
use rsp_website.Lifecycle.Outbox.{Entry, enqueue_outbox, has_row, require_identity_delivery}
use rsp_website.Lifecycle.Statements.{Call, find_user, update_user, bump}
use rsp_website.Lifecycle.Statements.Lookups.{update_user_version}
use rsp_website.Lifecycle.Statements.Commits.{
  entry_for, committed_db, IsCutOff, committed_db-IsCutOff,
}
use rsp_website.Lifecycle.Service.{
  SuspensionOptions, is_deleting, suspension_state, set_state, non_empty, set_suspended_tx,
  set_suspended,
}

-- the event that tells the API of the new state
abbrev pub suspension_event : Bool → SuspensionOptions → EventKind
suspension_event suspend o =
    account_state_changed (suspension_state suspend)
      (or_default o.reason (if suspend then "suspension" else "security_admin"))
      (non_empty o.actor_user_id)

-- What the account becomes: suspended, or active again, at the next security version.
abbrev pub suspended_user : Bool → ℕ → User → User
suspended_user suspend now u = record u {
  account_state = if suspend then suspended else active;
  security_version = u.security_version + 1;
  updated_at = now;
}

state_set :
    (suspend : Bool) (now : ℕ)
    → set_state (suspension_state suspend) now ≡ suspended_user suspend now
unfolding set_state bump
state_set true now = refl
state_set false now = refl

module _ (uid : String) (suspend : Bool) (o : SuspensionOptions) (c : Call) (db : Db) where
  abbrev pub suspended_db : User → Db
  suspended_db u =
      committed_db uid (set_state (suspension_state suspend) c.now) (suspension_event suspend o)
        (u.security_version + 1) c db

  -- What the transaction does, by the account that it finds.
  abbrev pub suspension_result : Option User → Result Entry × Db
  suspension_result none = (err user_not_found, db)
  suspension_result (some u) =
      if is_deleting u.account_state
      then (err suspension_refused, db)
      else if has_row c.event_id db.outbox
      then (err constraint_violation, db)
      else (
        ok (entry_for uid (suspension_event suspend o) (u.security_version + 1) c),
        suspended_db u,
      )

  pub set_suspended_tx_lem :
      in_transaction (set_suspended_tx uid suspend o c) db ≡ suspension_result (find_user uid db)
  unfolding set_suspended_tx enqueue_outbox update_user
  set_suspended_tx_lem = elim (Option-cases (find_user uid db)) [
    | inl e ↦ rw e refl
    | inr (u, e) ↦
        let version : (update_user uid (set_state (suspension_state suspend) c.now) db).0
            ≡ ok (some (u.security_version + 1)) =
          update_user_version uid _ db u (λ v. refl) e in
        rw e (ground (arith, version))
  ]

  pub set_suspended_lem :
      set_suspended uid suspend o c db
      ≡ continue
          (suspension_result (find_user uid db))
          (λ entry. require_identity_delivery entry c.attempt)
  unfolding set_suspended
  set_suspended_lem =
      ap (λ r. continue r (λ entry. require_identity_delivery entry c.attempt)) set_suspended_tx_lem

  cut_off :
      (u : User)
      → find_user uid db ≡ some u
      → is_deleting u.account_state ≡ false
      → has_row c.event_id db.outbox ≡ false
      → IsCutOff uid
          (set_state (suspension_state suspend) c.now)
          u
          db
          (set_suspended uid suspend o c db).1
  unfolding set_state
  cut_off u found usable fresh =
      rw (set_suspended_lem, found)
        (rw (usable, fresh)
          (committed_db-IsCutOff uid _ (suspension_event suspend o) (u.security_version + 1) c db u
            _ c.attempt (λ v. refl) found))

  -- An account that is active or suspended becomes suspended if it is to be suspended and active if
  -- not, with the next security version, and is signed out everywhere, whether or not the API can be told at once; every other account is left
  -- alone. The row ID of the event is new.
  pub set_suspended-IsCutOff :
      (u : User)
      → find_user uid db ≡ some u
      → is_deleting u.account_state ≡ false
      → has_row c.event_id db.outbox ≡ false
      → IsCutOff uid (suspended_user suspend c.now) u db (set_suspended uid suspend o c db).1
  set_suspended-IsCutOff u found usable fresh =
      subst (λ f. IsCutOff uid f u db (set_suspended uid suspend o c db).1)
        (state_set suspend c.now) (cut_off u found usable fresh)

  -- An unknown account, and one whose deletion is under way or done, is refused with its own error,
  -- and nothing is changed.
  pub set_suspended_refused :
      (find_user uid db ≡ none → set_suspended uid suspend o c db ≡ (err user_not_found, db))
      × ((u : User)
          → find_user uid db ≡ some u
          → is_deleting u.account_state ≡ true
          → set_suspended uid suspend o c db ≡ (err suspension_refused, db))
  set_suspended_refused = (
    λ missing. rw (set_suspended_lem, missing) refl,
    λ u found busy. rw (set_suspended_lem, found) (rw busy refl),
  )
