-- ===== src/Lifecycle/Erasure/Outcome.antt =====
-- `pseudonymize`, on every branch, and what is left of an account afterwards.

use rsp_website.Security.AccessPolicy.{deletion_pending}
use rsp_website.Prelude.{
  ℕ, ◌≤◌, ◌+◌, ◌≡◌, refl, ◌∙◌, ap, ◌⊎◌, inl, inr, String, true, false, not, Option, none, some,
  List, [], ◌∷◌, ◌&&◌, ◌||◌, map, arith, All, if◌then◌else◌, str_eq, Option-cases, update_rows,
}
use rsp_website.Prelude.Tables.{All-deleted}
use rsp_website.Lifecycle.Policy.{next_account_state}
use rsp_website.Lifecycle.Store.{Db, User, OutboxRow, auth_pseudonymized, identity}
use rsp_website.Lifecycle.Tx.{
  Result, ok, err, continue, user_not_found, not_deletion_pending, grace_not_elapsed,
  constraint_violation, in_transaction,
}
use rsp_website.Lifecycle.Outbox.{
  Entry, Attempt, enqueue_outbox, has_row, new_row, after_attempt, require_identity_delivery,
}
use rsp_website.Lifecycle.Statements.{Call, of_user, find_user, update_user, event_of}
use rsp_website.Lifecycle.Statements.Lookups.{update_user_version}
use rsp_website.Lifecycle.Statements.Commits.{
  entry_for, find_user-users, committed_db, find_user-committed_db, others_alone,
}
use rsp_website.Lifecycle.Erasure.Erased.{
  IsCleared, IsErased, nameless, nameless_lem, cleared-IsErased,
}
use rsp_website.Lifecycle.Deletion.{is_pending_state}
use rsp_website.Lifecycle.Erasure.{
  concerns, erase_account, mark_deleted, is_taken, is_early, pseudonymize_tx, pseudonymize_of,
}

-- Erasing touches no account.
pub find_user-erase_account :
    (uid address other : String) (db : Db)
    → find_user other (erase_account uid address db) ≡ find_user other db
unfolding erase_account
find_user-erase_account uid address other db =
    find_user-users other (erase_account uid address db) db refl

after_attempt-id : (e : Entry) (a : Attempt) (r : OutboxRow) → (after_attempt e a r).id ≡ r.id
unfolding after_attempt
after_attempt-id e a r = ground arith

All-attempted :
    (uid address event_id : String) (e : Entry) (a : Attempt) (rows : List OutboxRow)
    → All (λ (r : OutboxRow). concerns uid address r.payload ≡ false) rows
    → All
        (λ (r : OutboxRow). (r.id ≡ event_id) ⊎ (concerns uid address r.payload ≡ false))
        (map (after_attempt e a) rows)
unfolding after_attempt
All-attempted uid address event_id e a [] h = tt
All-attempted uid address event_id e a (r ∷ rows) (q, h) =
    (ground (arith, q), All-attempted uid address event_id e a rows h)

module _ (uid : String) (c : Call) (db : Db) where
  abbrev pub erased_db : User → Db
  erased_db u =
      let bare = erase_account uid u.email db in
      record bare {
        users = update_rows (of_user uid) (mark_deleted c.now) bare.users;
        outbox =
            new_row c.event_id
              (identity (event_of auth_pseudonymized uid (u.security_version + 1) c.now)) c.now
            ∷ bare.outbox;
      }

  -- What the transaction does, by the account that it finds.
  abbrev pub pseudonymize_result : Option User → Result Entry × Db
  pseudonymize_result none = (err user_not_found, db)
  pseudonymize_result (some u) =
      if is_pending_state u.account_state
      then if is_early u.deletion_recovery_deadline c.now
        then (err grace_not_elapsed, db)
        else if is_taken uid (erase_account uid u.email db).users
        then (err constraint_violation, db)
        else if has_row c.event_id (erase_account uid u.email db).outbox
        then (err constraint_violation, db)
        else (ok (entry_for uid auth_pseudonymized (u.security_version + 1) c), erased_db u)
      else (err not_deletion_pending, db)

  pub pseudonymize_tx_lem :
      in_transaction (pseudonymize_tx uid c) db ≡ pseudonymize_result (find_user uid db)
  unfolding pseudonymize_tx enqueue_outbox update_user next_account_state
  pseudonymize_tx_lem = elim (Option-cases (find_user uid db)) [
    | inl e ↦ rw e refl
    | inr (u, e) ↦
        let there : find_user uid (erase_account uid u.email db) ≡ some u =
          find_user-erase_account uid u.email uid db ∙ e in
        let version : (update_user uid (mark_deleted c.now) (erase_account uid u.email db)).0
            ≡ ok (some (u.security_version + 1)) =
          update_user_version uid (mark_deleted c.now) (erase_account uid u.email db) u
            (λ v. unfold mark_deleted in refl) there
          ∙ unfold mark_deleted in refl in
        rw e (ground (arith, version))
  ]

  pub pseudonymize_lem :
      pseudonymize_of uid c db
      ≡ continue
          (pseudonymize_result (find_user uid db))
          (λ entry. require_identity_delivery entry c.attempt)
  unfolding pseudonymize_of
  pseudonymize_lem =
      ap (λ r. continue r (λ entry. require_identity_delivery entry c.attempt)) pseudonymize_tx_lem

  -- An account whose deletion is not pending, and one whose deadline is missing or still ahead, is
  -- refused, and nothing is changed.
  pub pseudonymize_refused :
      (u : User)
      → find_user uid db ≡ some u
      → is_pending_state u.account_state && not (is_early u.deletion_recovery_deadline c.now)
        ≡ false
      → pseudonymize_of uid c db ≡ (
        err (if is_pending_state u.account_state then grace_not_elapsed else not_deletion_pending),
        db,
      )
  pseudonymize_refused u found kept = rw (pseudonymize_lem, found) (ground (arith, kept))

  erased :
      (u : User)
      → IsCleared uid u.email c.event_id
          (require_identity_delivery
            (entry_for uid auth_pseudonymized (u.security_version + 1) c)
            c.attempt
            (erased_db u)).1
  unfolding require_identity_delivery erase_account new_row
  erased u = record {
    no_session = All-deleted (λ s. str_eq s.user_id uid) db.sessions;
    no_account = All-deleted (λ a. str_eq a.user_id uid) db.accounts;
    no_factor = All-deleted (λ t. str_eq t.user_id uid) db.two_factors;
    no_verification =
        All-deleted (λ v. str_eq v.identifier u.email || str_eq v.value uid) db.verifications;
    no_token = All-deleted (λ t. str_eq t.user_id uid) db.recovery_tokens;
    no_message = (
      inl (after_attempt-id _ c.attempt _),
      All-attempted uid u.email c.event_id _ c.attempt _
          (All-deleted (λ (r : OutboxRow). concerns uid u.email r.payload) db.outbox),
    );
  }

  pseudonymize-IsCleared :
      (u : User)
      → find_user uid db ≡ some u
      → is_pending_state u.account_state ≡ true
      → is_early u.deletion_recovery_deadline c.now ≡ false
      → is_taken uid (erase_account uid u.email db).users ≡ false
      → has_row c.event_id (erase_account uid u.email db).outbox ≡ false
      → let after = (pseudonymize_of uid c db).1 in
        (find_user uid after ≡ some (mark_deleted c.now u))
        × IsCleared uid u.email c.event_id after
        × ((other : String) → (other ≡ uid) ⊎ (find_user other after ≡ find_user other db))
  unfolding require_identity_delivery erase_account
  pseudonymize-IsCleared u found pending over free fresh =
      let gone : Db = committed_db uid (mark_deleted c.now) auth_pseudonymized 0 c db in
      let keep : (v : User) → (mark_deleted c.now v).id ≡ v.id = λ v. unfold mark_deleted in refl in
      rw (pseudonymize_lem, found)
        (rw (pending, over, free, fresh)
          (
            find_user-users uid _ gone refl
                ∙ find_user-committed_db uid (mark_deleted c.now) auth_pseudonymized 0 c db u keep
                    found,
            erased u,
            others_alone uid (mark_deleted c.now) auth_pseudonymized 0 c db _ keep refl,
          ))

  -- Once the grace period of a pending account is over, it is left without its name, its addresses and
  -- its dates, as a deleted account with the next security version, and none of its sessions, sign-in
  -- methods, second factors, verifications and recovery tokens is left, nor any message to its address
  -- or event about it but the one that announces this; every other account is left alone. The
  -- reserved address and the row ID of the event are free.
  pub pseudonymize-IsErased :
      (u : User) (deadline : ℕ)
      → find_user uid db ≡ some u
      → u.account_state ≡ deletion_pending
      → u.deletion_recovery_deadline ≡ some deadline
      → deadline ≤ c.now
      → is_taken uid (erase_account uid u.email db).users ≡ false
      → has_row c.event_id (erase_account uid u.email db).outbox ≡ false
      → let after = (pseudonymize_of uid c db).1 in
        (find_user uid after ≡ some (nameless c.now u))
        × IsErased uid u.email c.event_id after
        × ((other : String) → (other ≡ uid) ⊎ (find_user other after ≡ find_user other db))
  pseudonymize-IsErased u deadline found pending dated over free fresh =
      let (row, cleared, others) =
        pseudonymize-IsCleared u found (ground (arith, pending)) (ground (arith, dated, over)) free
          fresh in
      (
        row ∙ ap some (nameless_lem c.now u),
        cleared-IsErased uid u.email c.event_id _ cleared,
        others,
      )
