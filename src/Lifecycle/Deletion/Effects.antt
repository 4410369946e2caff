-- ===== src/Lifecycle/Deletion/Effects.antt =====
-- What a request for deletion, and its cancellation by the owner, guarantee once they are committed.
use rsp_website.Prelude.{
  ◌⊎◌, ℕ, ◌≡◌, refl, ◌∙◌, ap, String, true, false, some, [], ◌∷◌, arith, Text, select_rows,
}
use rsp_website.Prelude.Tables.{select_rows-update_rows}
use rsp_website.Lifecycle.Policy.{is_deletion_recoverable}
use rsp_website.Lifecycle.Store.{Db, User, deletion_cancelled}
use rsp_website.Lifecycle.Tx.{err, not_recoverable, continue}
use rsp_website.Lifecycle.Outbox.{Entry, has_row, deliver_best_effort, require_identity_delivery}
use rsp_website.Lifecycle.Statements.{Call, find_user}
use rsp_website.Lifecycle.Statements.Commits.{
  committed_db, find_user-users, find_user-committed_db, others_alone,
}
use rsp_website.Lifecycle.Deletion.{
  DeletionRequest, is_open_of, revoke, revoke_open_tokens, mark_active, cancel_deletion_of,
}
use rsp_website.Lifecycle.Deletion.Cancel.{cancel_result, cancel_deletion_tx_lem}

-- Once the open tokens are revoked the account has none.
pub revoked_open_tokens :
    (uid : String) (now : ℕ) (db : Db)
    → select_rows (is_open_of uid) (revoke_open_tokens uid now db).recovery_tokens ≡ []
unfolding revoke_open_tokens
revoked_open_tokens uid now db =
    select_rows-update_rows (is_open_of uid) (revoke now) db.recovery_tokens
      λ t h. unfold revoke in ground arith

module _ (hash : Text → String) (add_token : Text → Text → Text) (iso : ℕ → Text)
    (q : DeletionRequest) (c : Call) (db : Db) where
  abbrev pub deliver_request : Entry × Entry → Db → Db
  deliver_request (message, event) d =
      (require_identity_delivery event c.attempt
        (deliver_best_effort ((message, q.email_attempt) ∷ []) d)).1

module _ (uid : String) (c : Call) (db : Db) where
  pub cancel_deletion_lem :
      cancel_deletion_of uid c db
      ≡ continue
          (cancel_result uid c db (find_user uid db))
          (λ entry. require_identity_delivery entry c.attempt)
  unfolding cancel_deletion_of
  cancel_deletion_lem =
      ap (λ r. continue r (λ entry. require_identity_delivery entry c.attempt))
        (cancel_deletion_tx_lem uid c db)

  -- A pending account whose deadline has not passed is active again, with the next security version
  -- and without a deadline, and none of its recovery tokens stays open; every other account is left
  -- alone. The row ID of the event is new.
  pub cancel_deletion-restores :
      (u : User)
      → find_user uid db ≡ some u
      → is_deletion_recoverable u.account_state u.deletion_recovery_deadline c.now ≡ true
      → has_row c.event_id db.outbox ≡ false
      → let after = (cancel_deletion_of uid c db).1 in
        (find_user uid after ≡ some (mark_active c.now u))
        × (select_rows (is_open_of uid) after.recovery_tokens ≡ [])
        × ((other : String) → (other ≡ uid) ⊎ (find_user other after ≡ find_user other db))
  unfolding require_identity_delivery mark_active
  cancel_deletion-restores u found usable fresh =
      rw (cancel_deletion_lem, found)
        (rw (usable, fresh)
          (
            find_user-users uid _ (committed_db uid (mark_active c.now) deletion_cancelled 0 c db)
                  refl
                ∙ find_user-committed_db uid (mark_active c.now) deletion_cancelled 0 c db u
                    (λ v. refl) found,
            revoked_open_tokens uid c.now db,
            others_alone uid (mark_active c.now) deletion_cancelled 0 c db _ (λ v. refl) refl,
          ))

  -- An account that is not pending, or whose deadline has passed, is refused and nothing is changed.
  pub cancel_deletion-refused :
      (u : User)
      → find_user uid db ≡ some u
      → is_deletion_recoverable u.account_state u.deletion_recovery_deadline c.now ≡ false
      → cancel_deletion_of uid c db ≡ (err not_recoverable, db)
  cancel_deletion-refused u found lost = rw (cancel_deletion_lem, found) (rw lost refl)
