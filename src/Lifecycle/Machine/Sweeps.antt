-- ===== src/Lifecycle/Machine/Sweeps.antt =====
-- The sweeps and the deliveries refine the machine (apps/auth/src/lifecycle/service.ts): deliveries
-- touch the outbox alone, and a sweep of the accounts is a sequence of effects, or none.
use rsp_website.Prelude.{
  ℕ, zero, suc, ◌≡◌, refl, ◌∙◌, sym, String, Bool, true, false, ◌||◌, Option, none, some, List, [],
  ◌∷◌, arith, All, ltb, Bool-cases, inl, inr, delete_rows,
}
use mathlib.Core.Path.{subst}
use rsp_website.Prelude.Tables.{All-delete_rows}
use rsp_website.Lifecycle.Store.{Db, User, Session, IdentityEvent, EmailMessage}
use rsp_website.Lifecycle.Tx.{Result, ok, err, continue, rollback}
use rsp_website.Lifecycle.Outbox.{
  Attempt, Entry, has_row, enqueue_outbox, deliver, require_identity_delivery, deliver_best_effort,
  queue_identity_event, queue_email, claim, deliver_each, flush_outbox,
}
use rsp_website.Lifecycle.Statements.{session_of, enqueue_event}
use rsp_website.Lifecycle.Deletion.{is_pending_user, update_pending}
use rsp_website.Lifecycle.Erasure.{
  Draw, mark_deleted, erase_account, is_blocked, announce, erase_one, erase_each, due_users,
  pseudonymize_due_tx, pseudonymize_due,
}
use rsp_website.Lifecycle.Erasure.Batch.{erase_one_users, deliver_best_effort_users}
use rsp_website.Lifecycle.Machine.Effects.{Effect, kept, changed, fewer, sequel}
use rsp_website.Lifecycle.Machine.Removal.{named_of_pending, state_of_pending, mark_deleted-step}

pub queue_email-Effect :
    (id : String) (m : EmailMessage) (now : ℕ) (db : Db) → Effect db (queue_email id m now db)
unfolding queue_email
queue_email-Effect id m now db = elim (Bool-cases (has_row id db.outbox)) [
  | inl old ↦ rw old (kept refl refl)
  | inr new ↦ rw new (kept refl refl)
]

pub queue_identity_event-Effect :
    (id : String) (event : IdentityEvent) (now : Bool) (a : Attempt) (db : Db)
    → Effect db (queue_identity_event id event now a db).1
unfolding queue_identity_event enqueue_outbox require_identity_delivery deliver_best_effort deliver
queue_identity_event-Effect id event true a db = elim (Bool-cases (has_row id db.outbox)) [
  | inl old ↦ rw old (kept refl refl)
  | inr new ↦ rw new (kept refl refl)
]
queue_identity_event-Effect id event false a db = elim (Bool-cases (has_row id db.outbox)) [
  | inl old ↦ rw old (kept refl refl)
  | inr new ↦ rw new (kept refl refl)
]

deliver_each-users :
    (attempts : String → Attempt) (es : List Entry) (db : Db)
    → ((deliver_each attempts es db).1.users ≡ db.users)
      × ((deliver_each attempts es db).1.sessions ≡ db.sessions)
unfolding deliver_each deliver
deliver_each-users attempts [] db = (refl, refl)
deliver_each-users attempts (e ∷ es) db =
    deliver_each-users attempts es (deliver e (attempts e.id) db).1

pub flush_outbox-Effect :
    (limit now : ℕ) (attempts : String → Attempt) (db : Db)
    → Effect db (flush_outbox limit now attempts db).1
unfolding flush_outbox claim
flush_outbox-Effect limit now attempts db = elim (Bool-cases (ltb limit 1 || ltb 100 limit)) [
  | inl bad ↦ rw bad (kept refl refl)
  | inr good ↦
      let (users, sessions) =
        deliver_each-users attempts (claim limit now db).0 (claim limit now db).1 in
      rw good (kept users sessions)
]

deliver_best_effort_sessions :
    (es : List (Entry × Attempt)) (db : Db) → (deliver_best_effort es db).sessions ≡ db.sessions
unfolding deliver_best_effort deliver
deliver_best_effort_sessions [] db = refl
deliver_best_effort_sessions ((e, a) ∷ rest) db =
    deliver_best_effort_sessions rest (deliver e a db).1

announce_sessions :
    (uid : String) (version : Option ℕ) (d : Draw) (now : ℕ) (db : Db)
    → (announce uid version d now db).1.sessions ≡ db.sessions
unfolding announce enqueue_event enqueue_outbox
announce_sessions uid none d now db = refl
announce_sessions uid (some zero) d now db = refl
announce_sessions uid (some (suc v)) d now db = ground arith

erase_one_sessions :
    (a : User) (d : Draw) (now : ℕ) (db : Db)
    → (erase_one a d now db).1.sessions ≡ delete_rows (session_of a.id) db.sessions
unfolding erase_one erase_account update_pending
erase_one_sessions a d now db = elim (Bool-cases (is_blocked a.id db.users)) [
  | inl e ↦ rw e refl
  | inr e ↦ rw e (announce_sessions a.id _ d now _)
]

erase_one-Effect : (a : User) (d : Draw) (now : ℕ) (db : Db) → Effect db (erase_one a d now db).1
erase_one-Effect a d now db = elim (Bool-cases (is_blocked a.id db.users)) [
  | inl e ↦ fewer (erase_one_users a d now db ∙ rw e refl) (λ p h.
      subst (λ (ss : List Session). All (λ s. p s.user_id ≡ true) ss)
        (sym (erase_one_sessions a d now db))
        (All-delete_rows (λ (s : Session). p s.user_id ≡ true) (session_of a.id) db.sessions h))
  | inr e ↦
      changed a.id (is_pending_user a.id) (mark_deleted now) (λ x. unfold mark_deleted in refl)
        (named_of_pending a.id) (erase_one_users a d now db ∙ rw e refl)
        (λ x found h. mark_deleted-step x now (state_of_pending a.id x h))
        (inl (erase_one_sessions a d now db))
]

-- A first part that fails ends a sequence, and one that succeeds hands its state on.
pub Effect-continue :
    {A B : Type 0} (db : Db) (r : Result A × Db) (k : A → Db → Result B × Db)
    → Effect db r.1
    → ((a : A) → Effect r.1 (k a r.1).1)
    → Effect db (continue r k).1
Effect-continue db (ok a, mid) k first next = sequel first (next a)
Effect-continue db (err e, mid) k first next = first

Effect-rollback :
    {A : Type 0} (db : Db) (r : Result A × Db) → Effect db r.1 → Effect db (rollback db r).1
Effect-rollback db (ok a, after) h = h
Effect-rollback db (err e, after) h = kept refl refl

pub erase_each-Effect :
    (draw : String → Draw) (due : List User) (now : ℕ) (db : Db)
    → Effect db (erase_each draw due now db).1
unfolding erase_each
erase_each-Effect draw [] now db = kept refl refl
erase_each-Effect draw (a ∷ due) now db =
    Effect-continue db (erase_one a (draw a.id) now db) _ (erase_one-Effect a (draw a.id) now db)
      λ event.
        Effect-continue (erase_one a (draw a.id) now db).1
          (erase_each draw due now (erase_one a (draw a.id) now db).1) _
          (erase_each-Effect draw due now (erase_one a (draw a.id) now db).1)
          λ events. kept refl refl

-- A sweep of the due accounts, rolled back where it fails, and the deliveries behind it.
pub pseudonymize_due-Effect :
    (limit now : ℕ) (draw : String → Draw) (db : Db)
    → Effect db (pseudonymize_due limit draw now db).1
unfolding pseudonymize_due pseudonymize_due_tx
pseudonymize_due-Effect limit now draw db = elim (Bool-cases (ltb limit 1 || ltb 100 limit)) [
  | inl bad ↦ rw bad (kept refl refl)
  | inr good ↦
      let swept = erase_each draw (due_users limit now db) now db in
      rw good (
        Effect-continue db (rollback db swept) _
          (Effect-rollback db swept (erase_each-Effect draw (due_users limit now db) now db))
          λ events.
            kept (deliver_best_effort_users events (rollback db swept).1)
              (deliver_best_effort_sessions events (rollback db swept).1))
]
