-- ===== src/Lifecycle/Deletion/Cancel.antt =====
-- `cancelDeletion`, on every branch.
use rsp_website.Prelude.{
  ◌+◌, ◌≡◌, refl, String, Option, none, some, ◌∷◌, arith, if◌then◌else◌, Option-cases, inl, inr,
  update_rows,
}
use rsp_website.Lifecycle.Policy.{next_account_state, is_deletion_recoverable}
use rsp_website.Lifecycle.Store.{Db, User, deletion_cancelled, identity}
use rsp_website.Lifecycle.Tx.{
  Result, ok, err, user_not_found, not_recoverable, constraint_violation, in_transaction,
}
use rsp_website.Lifecycle.Outbox.{Entry, enqueue_outbox, has_row, new_row}
use rsp_website.Lifecycle.Statements.{Call, of_user, find_user, update_user, event_of}
use rsp_website.Lifecycle.Statements.Lookups.{update_user_version}
use rsp_website.Lifecycle.Statements.Commits.{entry_for}
use rsp_website.Lifecycle.Deletion.{revoke_open_tokens, mark_active, cancel_deletion_tx}

module _ (uid : String) (c : Call) (db : Db) where
  abbrev pub cancelled_db : User → Db
  cancelled_db u = record db {
    users = update_rows (of_user uid) (mark_active c.now) db.users;
    recovery_tokens = (revoke_open_tokens uid c.now db).recovery_tokens;
    outbox =
        new_row c.event_id
          (identity (event_of deletion_cancelled uid (u.security_version + 1) c.now)) c.now
        ∷ db.outbox;
  }

  abbrev pub cancel_result : Option User → Result Entry × Db
  cancel_result none = (err user_not_found, db)
  cancel_result (some u) =
      if is_deletion_recoverable u.account_state u.deletion_recovery_deadline c.now
      then if has_row c.event_id db.outbox
        then (err constraint_violation, db)
        else (ok (entry_for uid deletion_cancelled (u.security_version + 1) c), cancelled_db u)
      else (err not_recoverable, db)

  pub cancel_deletion_tx_lem :
      in_transaction (cancel_deletion_tx uid c) db ≡ cancel_result (find_user uid db)
  unfolding cancel_deletion_tx enqueue_outbox update_user next_account_state is_deletion_recoverable
  cancel_deletion_tx_lem = elim (Option-cases (find_user uid db)) [
    | inl e ↦ rw e refl
    | inr (u, e) ↦
        let version : (update_user uid (mark_active c.now) db).0
            ≡ ok (some (u.security_version + 1)) =
          update_user_version uid (mark_active c.now) db u (λ v. refl) e in
        rw e (ground (arith, version))
  ]
