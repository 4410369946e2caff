-- ===== src/Lifecycle/Deletion/Request.antt =====
-- `requestDeletion`, on every branch.
use rsp_website.Prelude.{
  ℕ, ◌+◌, ◌≡◌, refl, ◌∙◌, String, Bool, true, false, Option, none, some, ◌∷◌, arith, if◌then◌else◌,
  str_eq, Option-cases, inl, inr, Text, update_rows, delete_rows,
}
use rsp_website.Security.AccessPolicy.{AccountState, active, suspended}
use rsp_website.Lifecycle.Policy.{next_account_state}
use rsp_website.Lifecycle.Store.{Db, User, EmailMessage, deletion_requested, identity, email}
use rsp_website.Lifecycle.Tx.{
  Result, ok, err, user_not_found, invalid_transition, constraint_violation, in_transaction,
}
use rsp_website.Lifecycle.Outbox.{Entry, enqueue_outbox, has_row, new_row}
use rsp_website.Lifecycle.Statements.{Call, of_user, session_of, find_user, update_user, event_of}
use rsp_website.Lifecycle.Statements.Lookups.{update_user_version}
use rsp_website.Lifecycle.Statements.Commits.{entry_for, find_user-users}
use rsp_website.Lifecycle.Deletion.{
  DeletionRequest, new_token, is_refused, revoke_open_tokens, mark_pending, request_deletion_tx,
}
use rsp_website.Email.Templates.{deletion_recovery_email}

-- Revoking tokens leaves the accounts alone.
pub find_user-revoke_open_tokens :
    (uid other : String) (now : ℕ) (db : Db)
    → find_user other (revoke_open_tokens uid now db) ≡ find_user other db
unfolding revoke_open_tokens
find_user-revoke_open_tokens uid other now db =
    find_user-users other (revoke_open_tokens uid now db) db refl

module _ (hash : Text → String) (add_token : Text → Text → Text) (iso : ℕ → Text)
    (q : DeletionRequest) (c : Call) (db : Db) where
  abbrev pub recovery_message : User → EmailMessage
  recovery_message u =
      deletion_recovery_email u.email (add_token q.recovery_url q.token) (iso q.recovery_deadline)

  -- The account is pending, signed out and has one token; the email and the event wait.
  abbrev pub requested_db : User → Db
  requested_db u = record db {
    users = update_rows (of_user q.auth_user_id) (mark_pending c.now q.recovery_deadline) db.users;
    sessions = delete_rows (session_of q.auth_user_id) db.sessions;
    recovery_tokens =
        new_token hash add_token iso q c.now
        ∷ (revoke_open_tokens q.auth_user_id c.now db).recovery_tokens;
    outbox =
        new_row c.event_id
          (identity (
            event_of (deletion_requested q.recovery_deadline) q.auth_user_id
              (u.security_version + 1) c.now))
          c.now
        ∷ new_row q.email_id (email (recovery_message u)) c.now
        ∷ db.outbox;
  }

  abbrev pub can_request : AccountState → Bool
  can_request active = true
  can_request suspended = true
  can_request _ = false

  -- What the transaction does, by the account that it finds.
  abbrev pub request_result : Option User → Result (Entry × Entry) × Db
  request_result none = (err user_not_found, db)
  request_result (some u) =
      if can_request u.account_state
      then if is_refused (new_token hash add_token iso q c.now)
          (revoke_open_tokens q.auth_user_id c.now db).recovery_tokens
        then (err constraint_violation, db)
        else if has_row q.email_id db.outbox
        then (err constraint_violation, db)
        else if str_eq q.email_id c.event_id
        then (err constraint_violation, db)
        else if has_row c.event_id db.outbox
        then (err constraint_violation, db)
        else (
          ok (
            record { id = q.email_id; payload = email (recovery_message u) },
            entry_for q.auth_user_id (deletion_requested q.recovery_deadline)
                (u.security_version + 1) c,
          ),
          requested_db u,
        )
      else (err invalid_transition, db)

  pub request_deletion_tx_lem :
      in_transaction (request_deletion_tx hash add_token iso q c) db
      ≡ request_result (find_user q.auth_user_id db)
  unfolding request_deletion_tx enqueue_outbox update_user next_account_state
  request_deletion_tx_lem = elim (Option-cases (find_user q.auth_user_id db)) [
    | inl e ↦ rw e refl
    | inr (u, e) ↦
        let there : find_user q.auth_user_id (revoke_open_tokens q.auth_user_id c.now db) ≡ some u =
          find_user-revoke_open_tokens q.auth_user_id q.auth_user_id c.now db ∙ e in
        let version : (update_user q.auth_user_id (mark_pending c.now q.recovery_deadline)
              (revoke_open_tokens q.auth_user_id c.now db)).0
            ≡ ok (some (u.security_version + 1)) =
          update_user_version q.auth_user_id (mark_pending c.now q.recovery_deadline)
            (revoke_open_tokens q.auth_user_id c.now db) u (λ v. refl) there in
        rw e (ground (arith, version))
  ]
