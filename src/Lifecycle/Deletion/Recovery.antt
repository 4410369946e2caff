-- ===== src/Lifecycle/Deletion/Recovery.antt =====
-- `cancelDeletionWithRecoveryToken`, on every branch, and what it guarantees.
use mathlib.Core.Option
use rsp_website.Security.AccessPolicy.{deletion_pending}
use rsp_website.Prelude.{
  List, [], ◌++◌, All, ◌≢◌, ◌⊎◌, ◌≤◌, ℕ, ◌+◌, ◌≡◌, refl, ◌∙◌, ap, String, Bool, true, false, ◌&&◌,
  none, some, ◌∷◌, arith, str_eq, Text, find_row, select_rows, update_rows, Bool-cases,
  Option-cases, inl, inr, length, ◌==◌,
}
use rsp_website.Prelude.Tables.{find_row-update_rows, find_row-update_rows-none, find_row_sound}
use rsp_website.Lifecycle.Policy.{is_deletion_recoverable}
use rsp_website.Lifecycle.Store.{Db, User, RecoveryToken, deletion_cancelled}
use rsp_website.Lifecycle.Tx.{err, invalid_recovery_token}
use rsp_website.Lifecycle.Outbox.{Entry, has_row, require_identity_delivery}
use rsp_website.Lifecycle.Statements.{Call, of_user, find_user}
use rsp_website.Lifecycle.Statements.Commits.{entry_for}
use rsp_website.Lifecycle.Deletion.Recovering.{
  can_recover-pending, recovered_db, find_recovery_user, recover_tx_lem,
}
use rsp_website.Lifecycle.Deletion.{
  is_open_hash, use_token, find_recovery, can_recover, is_pending_user, mark_active, recover,
  is_token,
}

find_recovery-none :
    (h : String) (db : Db)
    → find_row (is_open_hash h) db.recovery_tokens ≡ none
    → find_recovery h db ≡ none
unfolding find_recovery Option.bind
find_recovery-none h db e = rw e refl

used_is_closed :
    (h : String) (now : ℕ) (t : RecoveryToken)
    → is_open_hash h t ≡ true
    → is_open_hash h (use_token now t) ≡ false
unfolding use_token
used_is_closed h now t e = ground arith

module _ (h : String) (c : Call) (db : Db) (t : RecoveryToken) (u : User) (e : Entry) where
  recovered_token :
      find_recovery h (require_identity_delivery e c.attempt (recovered_db h c db t u)).1 ≡ none
  unfolding require_identity_delivery
  recovered_token = find_recovery-none h _ (
      find_row-update_rows-none (is_open_hash h) (use_token c.now) db.recovery_tokens
        (used_is_closed h c.now))

  recovered_user :
      find_recovery h db ≡ some (t, u)
      → can_recover c.now (t, u) ≡ true
      → find_user t.user_id (require_identity_delivery e c.attempt (recovered_db h c db t u)).1
        ≡ some (mark_active c.now u)
  unfolding require_identity_delivery find_user mark_active
  recovered_user known usable =
      let found : find_row (of_user t.user_id) db.users ≡ some u =
        find_recovery_user h c db t u known in
      let named : str_eq u.id t.user_id ≡ true =
        find_row_sound (of_user t.user_id) db.users u found in
      find_row-update_rows (is_pending_user t.user_id) (of_user t.user_id) (mark_active c.now)
        db.users (λ v. refl)
      ∙ rw found (rw (named, can_recover-pending c.now t u usable) refl)

-- The request may succeed: the token is well formed, and belongs to an account that can be recovered.
abbrev is_accepted_token : (Text → String) → Text → ℕ → Db → Bool
is_accepted_token hash token now db =
    is_token token
    && elim (find_recovery (hash token) db) [ none ↦ false | some p ↦ can_recover now p ]

recover_unaccepted :
    (hash : Text → String) (token : Text) (c : Call) (db : Db)
    → is_accepted_token hash token c.now db ≡ false
    → recover hash token c db ≡ (err invalid_recovery_token, db)
unfolding recover
recover_unaccepted hash token c db bad = elim (Bool-cases (is_token token)) [
  | inr malformed ↦ rw malformed refl
  | inl formed ↦ elim (Option-cases (find_recovery (hash token) db)) [
    | inl e ↦ rw (formed, recover_tx_lem (hash token) c db, e) refl
    | inr ((t, u), e) ↦
        let lost : can_recover c.now (t, u) ≡ false = rw (formed, e) at bad in
        rw (formed, recover_tx_lem (hash token) c db, e) (rw lost refl)
  ]
]

-- The token has expired, or its account is not pending or past its deadline.
abbrev pub IsLost : ℕ → RecoveryToken → User → Type 0
IsLost now t u =
    (t.expires_at ≤ now)
    ⊎ (u.account_state ≢ deletion_pending)
    ⊎ (u.deletion_recovery_deadline ≡ none)
    ⊎ ((d : ℕ) × (u.deletion_recovery_deadline ≡ some d) × (d ≤ now))

can_recover-IsLost :
    (now : ℕ) (t : RecoveryToken) (u : User) → IsLost now t u → can_recover now (t, u) ≡ false
unfolding can_recover is_deletion_recoverable
can_recover-IsLost now t u (inl expired) = ground (arith, expired)
can_recover-IsLost now t u (inr (inl other)) = ground (arith, other)
can_recover-IsLost now t u (inr (inr (inl missing))) = ground (arith, missing)
can_recover-IsLost now t u (inr (inr (inr (d, e, over)))) = ground (arith, e, over)

-- A token that is malformed, one of which no unused and unrevoked record exists, one that has expired,
-- and one whose account is not pending or past its deadline, are refused with one and the same error,
-- and nothing is changed.
pub recover_refused :
    (hash : Text → String) (token : Text) (c : Call) (db : Db)
    → (is_token token ≡ false)
      ⊎ (find_row (is_open_hash (hash token)) db.recovery_tokens ≡ none)
      ⊎ ((t : RecoveryToken) × (u : User) × (find_recovery (hash token) db ≡ some (t, u))
          × IsLost c.now t u)
    → recover hash token c db ≡ (err invalid_recovery_token, db)
recover_refused hash token c db (inl malformed) =
    recover_unaccepted hash token c db (ground (arith, malformed))
recover_refused hash token c db (inr (inl unknown)) =
    recover_unaccepted hash token c db (ground (arith, find_recovery-none (hash token) db unknown))
recover_refused hash token c db (inr (inr (t, u, known, lost))) =
    recover_unaccepted hash token c db (ground (arith, known, can_recover-IsLost c.now t u lost))

-- Tokens of other hashes in front do not matter.
find_row-behind :
    (h : String) (new rows : List RecoveryToken)
    → All (λ t. str_eq t.token_hash h ≡ false) new
    → find_row (is_open_hash h) (new ++ rows) ≡ find_row (is_open_hash h) rows
unfolding find_row
find_row-behind h [] rows others = refl
find_row-behind h (t ∷ new) rows (other, others) =
    ground (arith, other, find_row-behind h new rows others)

-- Without an open token of the hash the request is refused.
recover_closed :
    (hash : Text → String) (token : Text) (c : Call) (db : Db)
    → find_row (is_open_hash (hash token)) db.recovery_tokens ≡ none
    → recover hash token c db ≡ (err invalid_recovery_token, db)
recover_closed hash token c db closed = recover_refused hash token c db (inr (inl closed))

module _ (hash : Text → String) (token : Text) (c : Call) (db : Db) (t : RecoveryToken) (u : User)
    (formed : is_token token ≡ true) (known : find_recovery (hash token) db ≡ some (t, u))
    (usable : can_recover c.now (t, u) ≡ true)
    (unique : length (select_rows (is_open_hash (hash token)) db.recovery_tokens) ≡ 1)
    (fresh : has_row c.event_id db.outbox ≡ false) where
  abbrev recovery_entry : Entry
  recovery_entry = entry_for t.user_id deletion_cancelled (u.security_version + 1) c

  recover_lem :
      recover hash token c db
      ≡ require_identity_delivery recovery_entry c.attempt (recovered_db (hash token) c db t u)
  unfolding recover
  recover_lem =
      let one : (length (select_rows (is_open_hash (hash token)) db.recovery_tokens) == 1) ≡ true =
        ground arith in
      rw (formed, recover_tx_lem (hash token) c db, known) (rw (usable, one, fresh) refl)

  recovered_tokens :
      (require_identity_delivery recovery_entry c.attempt
        (recovered_db (hash token) c db t u)).1.recovery_tokens
      ≡ update_rows (is_open_hash (hash token)) (use_token c.now) db.recovery_tokens
  unfolding require_identity_delivery
  recovered_tokens = refl

  used_up :
      find_row
        (is_open_hash (hash token))
        (update_rows (is_open_hash (hash token)) (use_token c.now) db.recovery_tokens)
      ≡ none
  used_up =
      find_row-update_rows-none (is_open_hash (hash token)) (use_token c.now) db.recovery_tokens
        (used_is_closed (hash token) c.now)

  -- A token that is accepted makes its account active again, with the next security version, and is
  -- used up: it is refused, and nothing is changed, in the tables that are left, and in any tables with
  -- the same recovery tokens and new ones of other hashes, whatever has become of the accounts.
  pub recover-is_single_use :
      (later : Call) (db' : Db) (new : List RecoveryToken)
      → let after = (recover hash token c db).1 in
        All (λ t'. str_eq t'.token_hash (hash token) ≡ false) new
        → db'.recovery_tokens ≡ new ++ after.recovery_tokens
        → (find_user t.user_id after ≡ some (mark_active c.now u))
          × (recover hash token later after ≡ (err invalid_recovery_token, after))
          × (recover hash token later db' ≡ (err invalid_recovery_token, db'))
  recover-is_single_use later db' new others kept =
      let same : (recover hash token c db).1
          ≡ (require_identity_delivery recovery_entry c.attempt
              (recovered_db (hash token) c db t u)).1 =
        ap (λ r. r.1) recover_lem in
      let tokens : (recover hash token c db).1.recovery_tokens
          ≡ update_rows (is_open_hash (hash token)) (use_token c.now) db.recovery_tokens =
        ap (λ (d : Db). d.recovery_tokens) same ∙ recovered_tokens in
      (
        ap (find_user t.user_id) same
            ∙ recovered_user (hash token) c db t u recovery_entry known usable,
        recover_closed hash token later _
            (ap (find_row (is_open_hash (hash token))) tokens ∙ used_up),
        recover_closed hash token later db' (
            ap (find_row (is_open_hash (hash token))) (kept ∙ ap (λ ts. new ++ ts) tokens)
            ∙ find_row-behind (hash token) new _ others
            ∙ used_up),
      )
