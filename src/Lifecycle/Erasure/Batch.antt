-- ===== src/Lifecycle/Erasure/Batch.antt =====
-- What a sweep of `pseudonymizeDue` leaves alone.

use rsp_website.Prelude.{
  ℕ, zero, suc, ◌≡◌, refl, String, Option, none, some, List, [], ◌∷◌, arith, if◌then◌else◌,
  update_rows, Bool-cases, inl, inr,
}
use rsp_website.Lifecycle.Store.{Db, User}
use rsp_website.Lifecycle.Outbox.{deliver_best_effort, enqueue_outbox, Attempt, Entry, deliver}
use rsp_website.Lifecycle.Statements.{enqueue_event}
use rsp_website.Lifecycle.Deletion.{is_pending_user, update_pending}
use rsp_website.Lifecycle.Erasure.{
  Draw, mark_deleted, erase_account, is_blocked, announce, erase_one,
}

announce_users :
    (uid : String) (version : Option ℕ) (d : Draw) (now : ℕ) (db : Db)
    → (announce uid version d now db).1.users ≡ db.users
unfolding announce enqueue_event enqueue_outbox
announce_users uid none d now db = refl
announce_users uid (some zero) d now db = refl
announce_users uid (some (suc v)) d now db = ground arith

-- One step changes the account that it erases, if it is pending, or none.
pub erase_one_users :
    (a : User) (d : Draw) (now : ℕ) (db : Db)
    → (erase_one a d now db).1.users ≡ (
        if is_blocked a.id db.users
        then db.users
        else update_rows (is_pending_user a.id) (mark_deleted now) db.users)
unfolding erase_one erase_account update_pending
erase_one_users a d now db = elim (Bool-cases (is_blocked a.id db.users)) [
  | inl e ↦ rw e refl
  | inr e ↦ rw e (announce_users a.id _ d now _)
]

pub deliver_best_effort_users :
    (es : List (Entry × Attempt)) (db : Db) → (deliver_best_effort es db).users ≡ db.users
unfolding deliver_best_effort deliver
deliver_best_effort_users [] db = refl
deliver_best_effort_users ((e, a) ∷ rest) db = deliver_best_effort_users rest (deliver e a db).1
