-- ===== src/Lifecycle/Service/Revocation.antt =====
-- `revokeSessions` and `recordMfaState`, on every branch, and what they guarantee once committed.
use rsp_website.Prelude.{
  ◌⊎◌, ℕ, ◌+◌, ◌≡◌, refl, ap, String, Bool, false, Option, none, some, arith, length, if◌then◌else◌,
  Option-cases, inl, inr, select_rows,
}
use rsp_website.Lifecycle.Store.{
  Db, User, SessionRevocationReason, sessions_revoked, mfa_configured, mfa_disabled, EventKind,
}
use rsp_website.Lifecycle.Tx.{
  synchronization_pending, Result, ok, err, continue, pure, ◌>>◌, user_not_found,
  constraint_violation, in_transaction,
}
use rsp_website.Lifecycle.Outbox.{Entry, enqueue_outbox, has_row, require_identity_delivery}
use rsp_website.Lifecycle.Statements.{Call, session_of, find_user, bump, update_user}
use rsp_website.Lifecycle.Statements.Lookups.{update_user_version, update_user_missing}
use rsp_website.Lifecycle.Statements.Commits.{
  entry_for, committed_db, IsCutOff, committed_db-IsCutOff, delivery_value,
}
use rsp_website.Lifecycle.Service.{
  revoke_sessions_tx, revoke_sessions, record_mfa_state_tx, record_mfa_state,
}

abbrev pub mfa_event : Bool → EventKind
mfa_event configured = if configured then mfa_configured else mfa_disabled

module _ (uid : String) (c : Call) (db : Db) where
  -- The account is signed out everywhere and gets the next security version; `value` is the result.
  abbrev pub revocation_result :
      {A : Type 0} → EventKind → (Entry → A) → Option User → Result A × Db
  revocation_result kind value none = (err user_not_found, db)
  revocation_result kind value (some u) =
      if has_row c.event_id db.outbox then (err constraint_violation, db) else (
        ok (value (entry_for uid kind (u.security_version + 1) c)),
        committed_db uid (bump c.now) kind (u.security_version + 1) c db,
      )

  abbrev with_count : Entry → ℕ × Entry
  with_count entry = (length (select_rows (session_of uid) db.sessions), entry)

  revoke_sessions_tx_lem :
      (reason : SessionRevocationReason)
      → in_transaction (revoke_sessions_tx uid reason c) db
        ≡ revocation_result (sessions_revoked reason) with_count (find_user uid db)
  unfolding revoke_sessions_tx enqueue_outbox update_user
  revoke_sessions_tx_lem reason = elim (Option-cases (find_user uid db)) [
    | inl e ↦
        let version : (update_user uid (bump c.now) db).0 ≡ ok none =
          update_user_missing uid (bump c.now) db (λ v. refl) e in
        rw e (ground (arith, version))
    | inr (u, e) ↦
        let version : (update_user uid (bump c.now) db).0 ≡ ok (some (u.security_version + 1)) =
          update_user_version uid (bump c.now) db u (λ v. refl) e in
        rw e (ground (arith, version))
  ]

  record_mfa_state_tx_lem :
      (configured : Bool)
      → in_transaction (record_mfa_state_tx uid configured c) db
        ≡ revocation_result (mfa_event configured) (λ e. e) (find_user uid db)
  unfolding record_mfa_state_tx enqueue_outbox update_user
  record_mfa_state_tx_lem configured = elim (Option-cases (find_user uid db)) [
    | inl e ↦
        let version : (update_user uid (bump c.now) db).0 ≡ ok none =
          update_user_missing uid (bump c.now) db (λ v. refl) e in
        rw e (ground (arith, version))
    | inr (u, e) ↦
        let version : (update_user uid (bump c.now) db).0 ≡ ok (some (u.security_version + 1)) =
          update_user_version uid (bump c.now) db u (λ v. refl) e in
        rw e (ground (arith, version))
  ]

  pub revoke_sessions_lem :
      (reason : SessionRevocationReason)
      → revoke_sessions uid reason c db
        ≡ continue
            (revocation_result (sessions_revoked reason) with_count (find_user uid db))
            (λ p. require_identity_delivery p.1 c.attempt >> pure p.0)
  unfolding revoke_sessions
  revoke_sessions_lem reason =
      ap (λ r. continue r (λ p. require_identity_delivery p.1 c.attempt >> pure p.0))
        (revoke_sessions_tx_lem reason)

  pub record_mfa_state_lem :
      (configured : Bool)
      → record_mfa_state uid configured c db
        ≡ continue
            (revocation_result (mfa_event configured) (λ e. e) (find_user uid db))
            (λ entry. require_identity_delivery entry c.attempt)
  unfolding record_mfa_state
  record_mfa_state_lem configured =
      ap (λ r. continue r (λ entry. require_identity_delivery entry c.attempt))
        (record_mfa_state_tx_lem configured)

  module _ (u : User) (found : find_user uid db ≡ some u)
      (fresh : has_row c.event_id db.outbox ≡ false) where
    -- Revoking the sessions of a known account signs it out everywhere, raises its security version
    -- by one and leaves every other account alone, also when the API cannot be told at once; it
    -- returns the number of sessions that there were, or the error that a retry is pending. The row ID of the event is new.
    pub revoke_sessions-IsCutOff :
        (reason : SessionRevocationReason)
        → let (r, after) = revoke_sessions uid reason c db in
          IsCutOff uid (bump c.now) u db after
          × ((r ≡ ok (length (select_rows (session_of uid) db.sessions)))
              ⊎ (r ≡ err synchronization_pending))
    revoke_sessions-IsCutOff reason =
        let entry = entry_for uid (sessions_revoked reason) (u.security_version + 1) c in
        let (same, value) =
          delivery_value entry c.attempt
            (committed_db uid (bump c.now) (sessions_revoked reason) (u.security_version + 1) c db)
            (length (select_rows (session_of uid) db.sessions)) in
        rw (revoke_sessions_lem, found)
          (rw fresh (
            rw same (
                committed_db-IsCutOff uid (bump c.now) (sessions_revoked reason)
                  (u.security_version + 1) c db u entry c.attempt (λ v. unfold bump in refl) found),
            value,
          ))

    -- A change of the second factor signs the account out everywhere, raises its security version by
    -- one and leaves every other account alone, also when the API cannot be told at once.
    pub record_mfa_state-IsCutOff :
        (configured : Bool)
        → IsCutOff uid (bump c.now) u db (record_mfa_state uid configured c db).1
    record_mfa_state-IsCutOff configured =
        rw (record_mfa_state_lem, found)
          (rw fresh (
            committed_db-IsCutOff uid (bump c.now) (mfa_event configured) (u.security_version + 1) c
              db u _ c.attempt (λ v. unfold bump in refl) found))
