-- ===== src/Lifecycle/Machine/Refinement.antt =====
-- The operations that sign an account out refine the machine (apps/auth/src/lifecycle/service.ts):
-- whatever they return, what they do is an effect of it.
use rsp_website.Prelude.{
  ℕ, ◌+◌, ◌≡◌, refl, ◌∙◌, sym, String, Bool, true, false, some, eq_iff, Bool-cases, Option-cases,
  inl, inr, eq_of_some, length, select_rows,
}
use mathlib.Core.Path.{subst}
use rsp_website.Lifecycle.Store.{Db, User, SessionRevocationReason, sessions_revoked, EventKind}
use rsp_website.Lifecycle.Outbox.{Entry, has_row, require_identity_delivery}
use rsp_website.Lifecycle.Statements.{Call, of_user, session_of, find_user, bump}
use rsp_website.Lifecycle.Statements.Lookups.{KeepsId}
use rsp_website.Lifecycle.Statements.Commits.{entry_for, committed_db, delivery_value}
use rsp_website.Lifecycle.Service.{
  is_deleting, suspension_state, set_state, SuspensionOptions, set_suspended, revoke_sessions,
  record_mfa_state,
}
use rsp_website.Lifecycle.Service.Suspension.{suspension_event, set_suspended_lem}
use rsp_website.Lifecycle.Service.Revocation.{mfa_event, revoke_sessions_lem, record_mfa_state_lem}
use rsp_website.Lifecycle.Machine.{renewed, switched, AccountStep}
use rsp_website.Lifecycle.Machine.Effects.{Effect, kept, changed}

pub named_of_user : (uid : String) (x : User) → of_user uid x ≡ true → x.id ≡ uid
named_of_user uid x h = (eq_iff x.id uid).0 h

-- A step of the row that is found is a step of every row that is found.
pub step_found :
    (uid : String) (f : User → User) (db : Db) (u : User)
    → find_user uid db ≡ some u
    → AccountStep u (f u)
    → (x : User) → find_user uid db ≡ some x
    → of_user uid x ≡ true
    → AccountStep x (f x)
step_found uid f db u e step x e' h =
    subst (λ y. AccountStep y (f y)) (eq_of_some (sym e ∙ e')) step

committed_db-Effect :
    (uid : String) (f : User → User) (kind : EventKind) (version : ℕ) (c : Call) (db : Db)
    (u : User) (e : Entry)
    → KeepsId f
    → find_user uid db ≡ some u
    → AccountStep u (f u)
    → Effect db (require_identity_delivery e c.attempt (committed_db uid f kind version c db)).1
unfolding require_identity_delivery
committed_db-Effect uid f kind version c db u e keep found step =
    changed uid (of_user uid) f keep (named_of_user uid) refl (step_found uid f db u found step)
      (inl refl)

set_state-step :
    (u : User) (suspend : Bool) (now : ℕ)
    → is_deleting u.account_state ≡ false
    → AccountStep u (set_state (suspension_state suspend) now u)
unfolding set_state
set_state-step u true now h = record {
  same_id = refl;
  next_version = refl;
  edge = switched h refl (refl, refl);
}
set_state-step u false now h = record {
  same_id = refl;
  next_version = refl;
  edge = switched h refl (refl, refl);
}

bump-step : (u : User) (now : ℕ) → AccountStep u (bump now u)
unfolding bump
bump-step u now = record { same_id = refl; next_version = refl; edge = renewed refl (refl, refl) }

module _ (uid : String) (c : Call) (db : Db) where
  pub set_suspended-Effect :
      (suspend : Bool) (o : SuspensionOptions) → Effect db (set_suspended uid suspend o c db).1
  set_suspended-Effect suspend o = elim (Option-cases (find_user uid db)) [
    | inl e ↦ rw (set_suspended_lem uid suspend o c db, e) (kept refl refl)
    | inr (u, e) ↦ elim (Bool-cases (is_deleting u.account_state)) [
      | inl busy ↦ rw (set_suspended_lem uid suspend o c db, e) (rw busy (kept refl refl))
      | inr usable ↦ elim (Bool-cases (has_row c.event_id db.outbox)) [
        | inl taken ↦
            rw (set_suspended_lem uid suspend o c db, e) (rw (usable, taken) (kept refl refl))
        | inr fresh ↦
            rw (set_suspended_lem uid suspend o c db, e)
              (rw (usable, fresh)
                (committed_db-Effect uid (set_state (suspension_state suspend) c.now)
                  (suspension_event suspend o) (u.security_version + 1) c db u
                  (entry_for uid (suspension_event suspend o) (u.security_version + 1) c)
                  (λ x. unfold set_state in refl) e (set_state-step u suspend c.now usable)))
      ]
    ]
  ]

  pub revoke_sessions-Effect :
      (reason : SessionRevocationReason) → Effect db (revoke_sessions uid reason c db).1
  revoke_sessions-Effect reason = elim (Option-cases (find_user uid db)) [
    | inl e ↦ rw (revoke_sessions_lem uid c db reason, e) (kept refl refl)
    | inr (u, e) ↦ elim (Bool-cases (has_row c.event_id db.outbox)) [
      | inl taken ↦ rw (revoke_sessions_lem uid c db reason, e) (rw taken (kept refl refl))
      | inr fresh ↦
          rw (revoke_sessions_lem uid c db reason, e)
            (rw fresh (
              rw
                (delivery_value (entry_for uid (sessions_revoked reason) (u.security_version + 1) c)
                  c.attempt
                  (committed_db uid (bump c.now) (sessions_revoked reason) (u.security_version + 1)
                    c db)
                  (length (select_rows (session_of uid) db.sessions))).0
                (committed_db-Effect uid (bump c.now) (sessions_revoked reason)
                  (u.security_version + 1) c db u
                  (entry_for uid (sessions_revoked reason) (u.security_version + 1) c)
                  (λ x. unfold bump in refl) e (bump-step u c.now))))
    ]
  ]

  pub record_mfa_state-Effect :
      (configured : Bool) → Effect db (record_mfa_state uid configured c db).1
  record_mfa_state-Effect configured = elim (Option-cases (find_user uid db)) [
    | inl e ↦ rw (record_mfa_state_lem uid c db configured, e) (kept refl refl)
    | inr (u, e) ↦ elim (Bool-cases (has_row c.event_id db.outbox)) [
      | inl taken ↦ rw (record_mfa_state_lem uid c db configured, e) (rw taken (kept refl refl))
      | inr fresh ↦
          rw (record_mfa_state_lem uid c db configured, e)
            (rw fresh (
              committed_db-Effect uid (bump c.now) (mfa_event configured) (u.security_version + 1) c
                db u (entry_for uid (mfa_event configured) (u.security_version + 1) c)
                (λ x. unfold bump in refl) e (bump-step u c.now)))
    ]
  ]
