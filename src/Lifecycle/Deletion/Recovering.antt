-- ===== src/Lifecycle/Deletion/Recovering.antt =====
-- The transaction of `cancelDeletionWithRecoveryToken`, by the token that it finds.
use mathlib.Core.Option
use rsp_website.Prelude.{
  ℕ, ◌+◌, ◌≡◌, refl, ◌∙◌, ap, String, true, Option, none, some, ◌∷◌, arith, if◌then◌else◌, str_eq,
  find_row, select_rows, update_rows, Bool-cases, Option-cases, eq_of_some, sym, inl, inr, length,
  ◌==◌,
}
use rsp_website.Prelude.Tables.{find_row_narrow, find_row_sound}
use rsp_website.Lifecycle.Policy.{is_deletion_recoverable}
use rsp_website.Lifecycle.Store.{Db, User, RecoveryToken, deletion_cancelled, identity}
use rsp_website.Lifecycle.Tx.{
  Result, ok, err, in_transaction, invalid_recovery_token, constraint_violation,
}
use rsp_website.Lifecycle.Outbox.{Entry, enqueue_outbox, has_row, new_row}
use rsp_website.Lifecycle.Statements.{Call, of_user, find_user, event_of}
use rsp_website.Lifecycle.Statements.Commits.{entry_for}
use rsp_website.Lifecycle.Deletion.{
  is_open_hash, use_token, find_recovery, can_recover, is_pending_user, is_pending_state,
  update_pending, consume_token, mark_active, recover_tx,
}

-- A row that a join has found comes from the second table.
joined_row :
    {A B : Type 0} (o : Option A) (g : A → Option B) (a : A) (b : B)
    → Option.bind {B = A × B} o (λ x. Option.map (λ y. (x, y)) (g x)) ≡ some (a, b)
    → g a ≡ some b
unfolding Option.bind
joined_row none g a b e = cc
joined_row (some x) g a b e = elim (Option-cases (g x)) [
  | inl missing ↦ let absurd : none ≡ some (a, b) = rw missing at e in cc
  | inr (y, found) ↦
      let same : (x, y) ≡ (a, b) = eq_of_some (rw found at e) in
      ap g (sym (ap (λ p. p.0) same)) ∙ found ∙ ap some (ap (λ p. p.1) same)
]

-- A recoverable account is pending.
pub can_recover-pending :
    (now : ℕ) (t : RecoveryToken) (u : User)
    → can_recover now (t, u) ≡ true
    → is_pending_state u.account_state ≡ true
unfolding can_recover is_deletion_recoverable
can_recover-pending now t u h = ground arith

module _ (h : String) (c : Call) (db : Db) where
  abbrev pub recovered_db : RecoveryToken → User → Db
  recovered_db t u = record db {
    users = update_rows (is_pending_user t.user_id) (mark_active c.now) db.users;
    recovery_tokens = update_rows (is_open_hash h) (use_token c.now) db.recovery_tokens;
    outbox =
        new_row c.event_id
          (identity (event_of deletion_cancelled t.user_id (u.security_version + 1) c.now)) c.now
        ∷ db.outbox;
  }

  abbrev pub recovery_result : Option (RecoveryToken × User) → Result Entry × Db
  recovery_result none = (err invalid_recovery_token, db)
  recovery_result (some (t, u)) =
      if can_recover c.now (t, u)
      then if length (select_rows (is_open_hash h) db.recovery_tokens) == 1
        then if has_row c.event_id db.outbox then (err constraint_violation, db) else (
          ok (entry_for t.user_id deletion_cancelled (u.security_version + 1) c),
          recovered_db t u,
        )
        else (err invalid_recovery_token, db)
      else (err invalid_recovery_token, db)

  pub find_recovery_user :
      (t : RecoveryToken) (u : User)
      → find_recovery h db ≡ some (t, u)
      → find_user t.user_id db ≡ some u
  unfolding find_recovery
  find_recovery_user t u e =
      joined_row (find_row (is_open_hash h) db.recovery_tokens) (λ r. find_user r.user_id db) t u e

  pending_found :
      (t : RecoveryToken) (u : User)
      → find_recovery h db ≡ some (t, u)
      → can_recover c.now (t, u) ≡ true
      → find_row (is_pending_user t.user_id) db.users ≡ some u
  unfolding find_user
  pending_found t u e usable =
      let found : find_row (of_user t.user_id) db.users ≡ some u = find_recovery_user t u e in
      let named : str_eq u.id t.user_id ≡ true =
        find_row_sound (of_user t.user_id) db.users u found in
      find_row_narrow (of_user t.user_id) (is_pending_user t.user_id) db.users u
        (λ v q. ground arith) found (rw (named, can_recover-pending c.now t u usable) refl)

  pub recover_tx_lem : in_transaction (recover_tx h c) db ≡ recovery_result (find_recovery h db)
  unfolding recover_tx enqueue_outbox update_pending consume_token mark_active
  recover_tx_lem = elim (Option-cases (find_recovery h db)) [
    | inl e ↦ rw e refl
    | inr ((t, u), e) ↦ elim (Bool-cases (can_recover c.now (t, u))) [
      | inl usable ↦
          let found : find_row (is_pending_user t.user_id) db.users ≡ some u =
            pending_found t u e usable in
          rw e (ground (arith, usable, found))
      | inr lost ↦ rw e (rw lost refl)
    ]
  ]
