-- ===== src/Server/Sweeps/Progress.antt =====
-- A round of the deletion sweep takes as many accounts out of the pending state as it reports, at
-- least (`pseudonymizeDue` in apps/auth/src/lifecycle/service.ts).
use mathlib.Core.Option
use rsp_website.Prelude.{
  ℕ, ◌+◌, ◌≤◌, ◌≡◌, refl, ◌∙◌, ap, String, Bool, true, false, ◌||◌, Option, none, some, List, [],
  ◌∷◌, arith, ltb, length, Bool-cases, inl, inr, find_row, select_rows, update_rows,
}
use rsp_website.Lifecycle.Store.{Db, User}
use rsp_website.Lifecycle.Tx.{Result, ok, err, continue, pure, ◌>>=◌, ◌>>◌, modify, rollback}
use rsp_website.Lifecycle.Outbox.{deliver_best_effort, Attempt, Entry}
use rsp_website.Lifecycle.Deletion.{is_pending_state, is_pending_user, update_pending}
use rsp_website.Lifecycle.Erasure.{
  Draw, mark_deleted, erase_account, is_blocked, announce, erase_one, erase_each, due_users,
  push_event, pseudonymize_due_tx, pseudonymize_due,
}
use rsp_website.Lifecycle.Erasure.Batch.{erase_one_users, deliver_best_effort_users}

abbrev pub is_pending_row : User → Bool
is_pending_row u = is_pending_state u.account_state

-- how many accounts wait for their deletion
abbrev pub pending_count : List User → ℕ
pending_count users = length (select_rows is_pending_row users)

-- Deleting rows that wait takes each of them out of the count.
pending_count-update :
    (uid : String) (now : ℕ) (users : List User)
    → length (select_rows (is_pending_user uid) users)
        + pending_count (update_rows (is_pending_user uid) (mark_deleted now) users)
      ≡ pending_count users
unfolding select_rows update_rows mark_deleted
pending_count-update uid now [] = ground arith
pending_count-update uid now (u ∷ users) = ground (arith, pending_count-update uid now users)

found_is_selected :
    (p : User → Bool) (users : List User) (u : User)
    → find_row p users ≡ some u
    → 1 ≤ length (select_rows p users)
unfolding find_row select_rows
found_is_selected p [] u e = cc
found_is_selected p (x ∷ users) u e = elim (Bool-cases (p x)) [
  | inl t ↦ rw t (ground arith)
  | inr t ↦ rw t (found_is_selected p users u (rw t at e))
]

-- an event of a round counts one
abbrev event_count : Result (Option Entry) → ℕ
event_count (ok (some e)) = 1
event_count _ = 0

event_count-le : (r : Result (Option Entry)) → event_count r ≤ 1
event_count-le (ok none) = ground arith
event_count-le (ok (some e)) = ground arith
event_count-le (err e) = ground arith

-- A round announces an account only if a row of it is updated.
announce_count :
    (uid : String) (o : Option User) (version : User → ℕ) (d : Draw) (now : ℕ) (db : Db) (n : ℕ)
    → ((u : User) → o ≡ some u → 1 ≤ n)
    → event_count (announce uid (Option.map version o) d now db).0 ≤ n
unfolding announce
announce_count uid none version d now db n h = ground arith
announce_count uid (some u) version d now db n h =
    let one : event_count (announce uid (some (version u)) d now db).0 ≤ 1 = event_count-le _ in
    let low : 1 ≤ n = h u refl in omega (arith, one, low)

erase_one_count :
    (a : User) (d : Draw) (now : ℕ) (db : Db)
    → is_blocked a.id db.users ≡ false
    → event_count (erase_one a d now db).0 ≤ length (select_rows (is_pending_user a.id) db.users)
unfolding erase_one update_pending erase_account
erase_one_count a d now db e = rw e (
    announce_count a.id (find_row (is_pending_user a.id) db.users)
      (λ u. (mark_deleted now u).security_version) d now _ _
      (λ u found. found_is_selected (is_pending_user a.id) db.users u found))

blocked_count :
    (a : User) (d : Draw) (now : ℕ) (db : Db)
    → is_blocked a.id db.users ≡ true
    → event_count (erase_one a d now db).0 ≡ 0
unfolding erase_one erase_account
blocked_count a d now db e = rw e refl

pub erase_one_progress :
    (a : User) (d : Draw) (now : ℕ) (db : Db)
    → event_count (erase_one a d now db).0 + pending_count (erase_one a d now db).1.users
      ≤ pending_count db.users
erase_one_progress a d now db = elim (Bool-cases (is_blocked a.id db.users)) [
  | inl e ↦
      let same : pending_count (erase_one a d now db).1.users ≡ pending_count db.users =
        ap pending_count (erase_one_users a d now db ∙ rw e refl) in
      let quiet : event_count (erase_one a d now db).0 ≡ 0 = blocked_count a d now db e in
      omega (arith, same, quiet)
  | inr e ↦
      let left : pending_count (erase_one a d now db).1.users
          ≡ pending_count (update_rows (is_pending_user a.id) (mark_deleted now) db.users) =
        ap pending_count (erase_one_users a d now db ∙ rw e refl) in
      let counted : event_count (erase_one a d now db).0
          ≤ length (select_rows (is_pending_user a.id) db.users) =
        erase_one_count a d now db e in
      let total : length (select_rows (is_pending_user a.id) db.users)
            + pending_count (update_rows (is_pending_user a.id) (mark_deleted now) db.users)
          ≡ pending_count db.users =
        pending_count-update a.id now db.users in
      omega (arith, left, counted, total)
]

-- the events of a round
abbrev events_count : Result (List (Entry × Attempt)) → ℕ
events_count (ok events) = length events
events_count (err e) = 0

push_count :
    (event : Option Entry) (a : Attempt) (events : List (Entry × Attempt))
    → length (push_event event a events) ≤ event_count (ok event) + length events
push_count none a events = omega arith
push_count (some e) a events = omega arith

then_count :
    (event : Option Entry) (a : Attempt) (r : Result (List (Entry × Attempt)) × Db)
    → let after = continue r (λ events. pure (push_event event a events)) in
      (events_count after.0 ≤ event_count (ok event) + events_count r.0) × (after.1 ≡ r.1)
then_count event a (ok events, db) = (push_count event a events, refl)
then_count event a (err e, db) = (omega arith, refl)

erase_each_progress :
    (draw : String → Draw) (due : List User) (now : ℕ) (db : Db)
    → events_count (erase_each draw due now db).0
        + pending_count (erase_each draw due now db).1.users
      ≤ pending_count db.users
unfolding erase_each
erase_each_progress draw [] now db = omega arith
erase_each_progress draw (a ∷ due) now db =
    step (erase_one a (draw a.id) now db) (erase_one_progress a (draw a.id) now db)
      (erase_each_progress draw due now (erase_one a (draw a.id) now db).1)
  where
    step :
        (r : Result (Option Entry) × Db)
        → event_count r.0 + pending_count r.1.users ≤ pending_count db.users
        → events_count (erase_each draw due now r.1).0
            + pending_count (erase_each draw due now r.1).1.users
          ≤ pending_count r.1.users
        → let after = continue r (λ event. erase_each draw due now >>= λ events.
            pure (push_event event (draw a.id).attempt events)) in
          events_count after.0 + pending_count after.1.users ≤ pending_count db.users
    step (ok event, mid) one rest =
        let (few, same) = then_count event (draw a.id).attempt (erase_each draw due now mid) in
        let users : pending_count
              (continue (erase_each draw due now mid)
                (λ events. pure (push_event event (draw a.id).attempt events))).1.users
            ≡ pending_count (erase_each draw due now mid).1.users =
          ap (λ (x : Db). pending_count x.users) same in
        omega (arith, few, users, one, rest)
    step (err e, mid) one rest = omega (arith, one)

abbrev pub reported : Result ℕ → ℕ
reported (ok n) = n
reported (err e) = 0

-- After the transaction, and the deliveries behind it.
delivered_progress :
    (r : Result (List (Entry × Attempt)) × Db) (db : Db)
    → events_count r.0 + pending_count r.1.users ≤ pending_count db.users
    → let after =
        continue
          (rollback db r)
          (λ events. modify (deliver_best_effort events) >> pure (length events)) in
      reported after.0 + pending_count after.1.users ≤ pending_count db.users
delivered_progress (ok events, mid) db h =
    let users : pending_count (deliver_best_effort events mid).users ≡ pending_count mid.users =
      ap pending_count (deliver_best_effort_users events mid) in
    omega (arith, users, h)
delivered_progress (err e, mid) db h = omega arith

-- Of a round that ends well, the number that it returns, with the accounts that still wait for their
-- deletion, is at most the number of those that did before: no account is reported twice or in vain.
pub pseudonymize_due_progress :
    (limit now : ℕ) (draw : String → Draw) (db : Db)
    → reported (pseudonymize_due limit draw now db).0
        + pending_count (pseudonymize_due limit draw now db).1.users
      ≤ pending_count db.users
unfolding pseudonymize_due pseudonymize_due_tx
pseudonymize_due_progress limit now draw db = elim (Bool-cases (ltb limit 1 || ltb 100 limit)) [
  | inl bad ↦ rw bad (omega arith)
  | inr good ↦ rw good (
      delivered_progress (erase_each draw (due_users limit now db) now db) db
        (erase_each_progress draw (due_users limit now db) now db))
]
