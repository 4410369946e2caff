-- ===== src/Lifecycle/Machine/Removal.antt =====
-- The operations on the deletion of one account refine the machine
-- (apps/auth/src/lifecycle/service.ts).
use rsp_website.Prelude.{
  ℕ, ◌≡◌, refl, String, true, false, some, List, [], ◌∷◌, arith, str_eq, eq_iff, Bool-cases,
  Option-cases, inl, inr, Text, length, select_rows, ◌==◌,
}
use rsp_website.Lifecycle.Policy.{is_deletion_recoverable}
use rsp_website.Lifecycle.Store.{Db, User, RecoveryToken}
use rsp_website.Lifecycle.Tx.{in_transaction}
use rsp_website.Lifecycle.Outbox.{Entry, has_row, require_identity_delivery, deliver_best_effort}
use rsp_website.Lifecycle.Statements.{Call, of_user, find_user}
use rsp_website.Lifecycle.Service.{is_deleting}
use rsp_website.Lifecycle.Deletion.{
  DeletionRequest, new_token, is_refused, revoke_open_tokens, mark_pending, mark_active,
  request_deletion_tx, request_deletion_of, cancel_deletion_of, is_open_hash, is_token,
  find_recovery, can_recover, recover, is_pending_state, is_pending_user,
}
use rsp_website.Lifecycle.Deletion.Request.{
  can_request, requested_db, request_result, request_deletion_tx_lem,
}
use rsp_website.Lifecycle.Deletion.Effects.{cancel_deletion_lem}
use rsp_website.Lifecycle.Deletion.Recovering.{recover_tx_lem}
use rsp_website.Lifecycle.Erasure.{is_early, is_taken, erase_account, mark_deleted, pseudonymize_of}
use rsp_website.Lifecycle.Erasure.Outcome.{pseudonymize_lem}
use rsp_website.Lifecycle.Machine.{requested, restored, erased, AccountStep}
use rsp_website.Lifecycle.Machine.Effects.{Effect, kept, changed}
use rsp_website.Lifecycle.Machine.Refinement.{named_of_user, step_found}

mark_pending-step :
    (u : User) (now deadline : ℕ)
    → is_deleting u.account_state ≡ false
    → AccountStep u (mark_pending now deadline u)
unfolding mark_pending
mark_pending-step u now deadline h = record {
  same_id = refl;
  next_version = refl;
  edge = requested h refl refl refl;
}

pub mark_active-step :
    (u : User) (now : ℕ)
    → is_pending_state u.account_state ≡ true
    → AccountStep u (mark_active now u)
unfolding mark_active
mark_active-step u now h = record {
  same_id = refl;
  next_version = refl;
  edge = restored h refl (refl, refl);
}

pub mark_deleted-step :
    (u : User) (now : ℕ)
    → is_pending_state u.account_state ≡ true
    → AccountStep u (mark_deleted now u)
unfolding mark_deleted
mark_deleted-step u now h = record {
  same_id = refl;
  next_version = refl;
  edge = erased h refl (refl, refl);
}

pub named_of_pending : (uid : String) (x : User) → is_pending_user uid x ≡ true → x.id ≡ uid
named_of_pending uid x h = ground (arith, eq_iff x.id uid)

pub state_of_pending :
    (uid : String) (x : User)
    → is_pending_user uid x ≡ true
    → is_pending_state x.account_state ≡ true
state_of_pending uid x h = ground arith

recoverable_is_pending :
    (u : User) (now : ℕ)
    → is_deletion_recoverable u.account_state u.deletion_recovery_deadline now ≡ true
    → is_pending_state u.account_state ≡ true
unfolding is_deletion_recoverable
recoverable_is_pending u now h = ground arith

module _ (hash : Text → String) (add_token : Text → Text → Text) (iso : ℕ → Text)
    (q : DeletionRequest) (c : Call) (db : Db) where
  can_request-usable :
      (u : User)
      → can_request hash add_token iso q c db u.account_state ≡ true
      → is_deleting u.account_state ≡ false
  can_request-usable u h = ground arith

  requested_effect :
      (u : User)
      → find_user q.auth_user_id db ≡ some u
      → is_deleting u.account_state ≡ false
      → (e : Entry × Entry)
      → Effect db
          (require_identity_delivery e.1 c.attempt (
            deliver_best_effort
              ((e.0, q.email_attempt) ∷ [])
              (requested_db hash add_token iso q c db u))).1
  unfolding require_identity_delivery deliver_best_effort
  requested_effect u found usable e =
      changed q.auth_user_id (of_user q.auth_user_id) (mark_pending c.now q.recovery_deadline)
        (λ x. unfold mark_pending in refl) (named_of_user q.auth_user_id) refl
        (step_found q.auth_user_id (mark_pending c.now q.recovery_deadline) db u found
          (mark_pending-step u c.now q.recovery_deadline usable))
        (inl refl)

  pub request_deletion-Effect : Effect db (request_deletion_of hash add_token iso q c db).1
  unfolding request_deletion_of
  request_deletion-Effect = elim (Option-cases (find_user q.auth_user_id db)) [
    | inl e ↦ rw (outcome, e) (kept refl refl)
    | inr (u, e) ↦ elim (Bool-cases (can_request hash add_token iso q c db u.account_state)) [
      | inr busy ↦ rw (outcome, e) (rw busy (kept refl refl))
      | inl usable ↦ elim (Bool-cases (is_refused token open_tokens)) [
        | inl bad ↦ rw (outcome, e) (rw (usable, bad) (kept refl refl))
        | inr good ↦ elim (Bool-cases (has_row q.email_id db.outbox)) [
          | inl sent ↦ rw (outcome, e) (rw (usable, good, sent) (kept refl refl))
          | inr unsent ↦ elim (Bool-cases (str_eq q.email_id c.event_id)) [
            | inl one ↦ rw (outcome, e) (rw (usable, good, unsent, one) (kept refl refl))
            | inr two ↦ elim (Bool-cases (has_row c.event_id db.outbox)) [
              | inl told ↦ rw (outcome, e) (rw (usable, good, unsent, two, told) (kept refl refl))
              | inr fresh ↦
                  rw (outcome, e)
                    (rw (usable, good, unsent, two, fresh)
                      (requested_effect u e (can_request-usable u usable) _))
            ]
          ]
        ]
      ]
    ]
  ]
    where
      token : RecoveryToken
      token = new_token hash add_token iso q c.now

      open_tokens : List RecoveryToken
      open_tokens = (revoke_open_tokens q.auth_user_id c.now db).recovery_tokens

      outcome :
          in_transaction (request_deletion_tx hash add_token iso q c) db
          ≡ request_result hash add_token iso q c db (find_user q.auth_user_id db)
      outcome = request_deletion_tx_lem hash add_token iso q c db

module _ (uid : String) (c : Call) (db : Db) where
  pub cancel_deletion-Effect : Effect db (cancel_deletion_of uid c db).1
  unfolding require_identity_delivery
  cancel_deletion-Effect = elim (Option-cases (find_user uid db)) [
    | inl e ↦ rw (cancel_deletion_lem uid c db, e) (kept refl refl)
    | inr (u, e) ↦
        elim (Bool-cases
          (is_deletion_recoverable u.account_state u.deletion_recovery_deadline c.now)) [
            | inr lost ↦ rw (cancel_deletion_lem uid c db, e) (rw lost (kept refl refl))
            | inl usable ↦ elim (Bool-cases (has_row c.event_id db.outbox)) [
              | inl taken ↦
                  rw (cancel_deletion_lem uid c db, e) (rw (usable, taken) (kept refl refl))
              | inr fresh ↦
                  rw (cancel_deletion_lem uid c db, e)
                    (rw (usable, fresh)
                      (changed uid (of_user uid) (mark_active c.now)
                        (λ x. unfold mark_active in refl) (named_of_user uid) refl
                        (step_found uid (mark_active c.now) db u e
                          (mark_active-step u c.now (recoverable_is_pending u c.now usable)))
                        (inr (refl, λ x. unfold mark_active in refl))))
            ]
          ]
  ]

  pub pseudonymize-Effect : Effect db (pseudonymize_of uid c db).1
  unfolding require_identity_delivery erase_account
  pseudonymize-Effect = elim (Option-cases (find_user uid db)) [
    | inl e ↦ rw (pseudonymize_lem uid c db, e) (kept refl refl)
    | inr (u, e) ↦ elim (Bool-cases (is_pending_state u.account_state)) [
      | inr other ↦ rw (pseudonymize_lem uid c db, e) (rw other (kept refl refl))
      | inl pending ↦ elim (Bool-cases (is_early u.deletion_recovery_deadline c.now)) [
        | inl early ↦ rw (pseudonymize_lem uid c db, e) (rw (pending, early) (kept refl refl))
        | inr over ↦ elim (Bool-cases (is_taken uid (erase_account uid u.email db).users)) [
          | inl used ↦ rw (pseudonymize_lem uid c db, e) (rw (pending, over, used) (kept refl refl))
          | inr free ↦
              elim (Bool-cases (has_row c.event_id (erase_account uid u.email db).outbox)) [
                | inl taken ↦
                    rw (pseudonymize_lem uid c db, e)
                      (rw (pending, over, free, taken) (kept refl refl))
                | inr fresh ↦
                    rw (pseudonymize_lem uid c db, e)
                      (rw (pending, over, free, fresh)
                        (changed uid (of_user uid) (mark_deleted c.now)
                          (λ x. unfold mark_deleted in refl) (named_of_user uid) refl
                          (step_found uid (mark_deleted c.now) db u e
                            (mark_deleted-step u c.now pending))
                          (inl refl)))
              ]
        ]
      ]
    ]
  ]

module _ (hash : Text → String) (token : Text) (c : Call) (db : Db) where
  pub recover-Effect : Effect db (recover hash token c db).1
  unfolding recover require_identity_delivery
  recover-Effect = elim (Bool-cases (is_token token)) [
    | inr malformed ↦ rw malformed (kept refl refl)
    | inl formed ↦ elim (Option-cases (find_recovery (hash token) db)) [
      | inl e ↦ rw (formed, recover_tx_lem (hash token) c db, e) (kept refl refl)
      | inr ((t, u), e) ↦ elim (Bool-cases (can_recover c.now (t, u))) [
        | inr lost ↦ rw (formed, recover_tx_lem (hash token) c db, e) (rw lost (kept refl refl))
        | inl usable ↦
            elim (Bool-cases
              (length (select_rows (is_open_hash (hash token)) db.recovery_tokens) == 1)) [
                | inr many ↦
                    rw (formed, recover_tx_lem (hash token) c db, e)
                      (rw (usable, many) (kept refl refl))
                | inl one ↦ elim (Bool-cases (has_row c.event_id db.outbox)) [
                  | inl taken ↦
                      rw (formed, recover_tx_lem (hash token) c db, e)
                        (rw (usable, one, taken) (kept refl refl))
                  | inr fresh ↦
                      rw (formed, recover_tx_lem (hash token) c db, e)
                        (rw (usable, one, fresh)
                          (changed t.user_id (is_pending_user t.user_id) (mark_active c.now)
                            (λ x. unfold mark_active in refl) (named_of_pending t.user_id) refl
                            (λ x found h. mark_active-step x c.now (state_of_pending t.user_id x h))
                            (inr (refl, λ x. unfold mark_active in refl))))
                ]
              ]
      ]
    ]
  ]
