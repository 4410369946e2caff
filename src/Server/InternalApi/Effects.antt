-- ===== src/Server/InternalApi/Effects.antt =====
-- The internal API refines the machine of the accounts (apps/auth/src/server.ts).
use rsp_website.Prelude.{
  ◌+◌, ◌*◌, refl, String, Bool, true, false, ◌||◌, Option, none, some, some_of, ltb, Bool-cases,
  inl, inr, text_eq,
}
use rsp_website.Security.ServiceToken.{has_valid_service_token}
use rsp_website.Lifecycle.Store.{Db, User, SessionRevocationReason}
use rsp_website.Lifecycle.Service.{revoke_sessions, set_suspended}
use rsp_website.Lifecycle.Deletion.{request_deletion_of, cancel_deletion_of}
use rsp_website.Lifecycle.Erasure.{pseudonymize_of}
use rsp_website.Lifecycle.Machine.Effects.{Effect, kept}
use rsp_website.Lifecycle.Machine.Refinement.{set_suspended-Effect, revoke_sessions-Effect}
use rsp_website.Lifecycle.Machine.Removal.{
  request_deletion-Effect, cancel_deletion-Effect, pseudonymize-Effect,
}
use rsp_website.Lifecycle.Machine.Sweeps.{queue_email-Effect}
use rsp_website.Lifecycle.Machine.Hooks.{then_pure}
use rsp_website.Server.InternalApi.{
  Action, revoke_action, state_action, mfa_state_action, email_change_action, deletion_action,
  deletion_cancel_action, pseudonymize_action, Route, Request, Env, Draws, EmailChange, StateChange,
  DeletionBody, day_ms, change_email, handle_email_change, handle_mfa_state, handle_revoke,
  handle_state, handle_deletion, request_of, dispatch, is_expected, is_bad_id, handle_internal,
}

change_email-Effect :
    (env : Env) (address : String) (e : EmailChange) (d : Draws) (current : Option User)
    (in_use : Bool) (db : Db)
    → Effect db (change_email env address e d current in_use db).1
unfolding change_email
change_email-Effect env address e d none in_use db = kept refl refl
change_email-Effect env address e d (some u) true db = kept refl refl
change_email-Effect env address e d (some u) false db =
    queue_email-Effect e.delivery_id _ d.call.now db

module _ (env : Env) (uid : String) (d : Draws) (db : Db) where
  email_change-Effect : (e : Option EmailChange) → Effect db (handle_email_change env uid e d db).1
  unfolding handle_email_change
  email_change-Effect none = kept refl refl
  email_change-Effect (some e) = change_email-Effect env (env.to_lower_case e.email) e d _ _ db

  revoke-Effect : (r : Option SessionRevocationReason) → Effect db (handle_revoke uid r d db).1
  unfolding handle_revoke
  revoke-Effect none = kept refl refl
  revoke-Effect (some r) =
      then_pure db (revoke_sessions uid r d.call db) _ (revoke_sessions-Effect uid d.call db r)

  state-Effect : (s : Option StateChange) → Effect db (handle_state uid s d db).1
  unfolding handle_state
  state-Effect none = kept refl refl
  state-Effect (some s) =
      then_pure db (set_suspended uid s.suspended _ d.call db) _
        (set_suspended-Effect uid d.call db s.suspended _)

  deletion-Effect :
      (b : Option DeletionBody) (received_at : _)
      → Effect db (handle_deletion env uid b received_at d db).1
  unfolding handle_deletion
  deletion-Effect none received_at = kept refl refl
  deletion-Effect (some b) received_at =
      elim (Bool-cases (some_of (text_eq (env.origin_of b.recovery_url)) env.trusted_origins)) [
        | inr foreign ↦ rw foreign (kept refl refl)
        | inl trusted ↦
            elim (Bool-cases (
              ltb b.recovery_deadline (received_at + 29 * day_ms)
              || ltb (received_at + 31 * day_ms) b.recovery_deadline)) [
                | inl bad ↦ rw (trusted, bad) (kept refl refl)
                | inr good ↦
                    rw (trusted, good)
                      (then_pure db
                        (request_deletion_of env.hash env.add_token env.iso (request_of uid b d)
                          d.call db)
                        _
                        (request_deletion-Effect env.hash env.add_token env.iso (request_of uid b d)
                          d.call db))
              ]
      ]

  dispatch-Effect :
      (a : Action) (request : Request)
      → Effect db (dispatch env (record { auth_user_id = uid; action = a }) request d db).1
  unfolding dispatch handle_mfa_state
  dispatch-Effect email_change_action q = email_change-Effect q.body.email_change
  dispatch-Effect mfa_state_action q = kept refl refl
  dispatch-Effect revoke_action q = revoke-Effect q.body.revocation
  dispatch-Effect state_action q = state-Effect q.body.state
  dispatch-Effect deletion_action q = deletion-Effect q.body.deletion q.received_at
  dispatch-Effect deletion_cancel_action q =
      then_pure db (cancel_deletion_of uid d.call db) _ (cancel_deletion-Effect uid d.call db)
  dispatch-Effect pseudonymize_action q =
      then_pure db (pseudonymize_of uid d.call db) _ (pseudonymize-Effect uid d.call db)

pub handle_internal-Effect :
    (env : Env) (route : Route) (q : Request) (d : Draws) (db : Db)
    → Effect db (handle_internal env route q d db).1
unfolding handle_internal
handle_internal-Effect env route q d db = elim (Bool-cases (is_expected route.action q.method)) [
  | inr wrong ↦ rw wrong (kept refl refl)
  | inl right ↦ elim (Bool-cases (has_valid_service_token q.authorization env.service_token)) [
    | inr alien ↦ rw (right, alien) (kept refl refl)
    | inl known ↦ elim (Bool-cases (is_bad_id route.auth_user_id)) [
      | inl bad ↦ rw (right, known, bad) (kept refl refl)
      | inr good ↦
          rw (right, known, good) (dispatch-Effect env route.auth_user_id d db route.action q)
    ]
  ]
]
