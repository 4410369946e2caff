-- ===== src/Lifecycle/Machine/Requests.antt =====
-- A whole request of Better Auth refines the machine (apps/auth/src/auth.ts).
use rsp_website.Prelude.{refl, String, Option, List, [], ◌∷◌, Option-cases, inl, inr, Text}
use rsp_website.Lifecycle.Store.{Db}
use rsp_website.Lifecycle.Statements.{of_user, find_user}
use rsp_website.Lifecycle.Hooks.{Adapter, TokenPayload, auth_after_hook}
use rsp_website.Lifecycle.Library.{
  Profile, new_user, edit_user, Write, create_user, update_user, create_session, delete_sessions,
  create_account, delete_accounts, verify_email, reset_password, end_request, insert_user, apply,
  apply_all,
}
use rsp_website.Lifecycle.Machine.Effects.{Effect, kept, rewritten, registered, sequel}
use rsp_website.Lifecycle.Machine.Sweeps.{Effect-continue}
use rsp_website.Lifecycle.Machine.Hooks.{
  IsAdapter, fewer_rows, then_pure, before_session_create-Effect, after_user_create-Effect,
  after_account_create-Effect, on_password_reset-Effect, after_email_verification-Effect,
  auth_after_hook-Effect,
}

module _ (adapter : Adapter) (lawful : IsAdapter adapter) where
  insert_user-Effect : (id : String) (p : Profile) (db : Db) → Effect db (insert_user id p db).1
  unfolding insert_user new_user
  insert_user-Effect id p db = elim (Option-cases (find_user id db)) [
    | inl free ↦ rw free (registered _ free (refl, refl, (refl, refl)) refl refl)
    | inr (u, e) ↦ rw e (kept refl refl)
  ]

  apply-Effect :
      (parse : Text → Option TokenPayload) (w : Write) (db : Db)
      → Effect db (apply adapter parse w db).1
  unfolding apply
  apply-Effect parse (create_user id p c) db =
      Effect-continue db (insert_user id p db) _ (insert_user-Effect id p db)
        λ done. after_user_create-Effect (new_user id p) c (insert_user id p db).1
  apply-Effect parse (update_user id p) db =
      rewritten (of_user id) (edit_user p)
        (λ u.
          unfold edit_user in
          record {
            same_id = refl;
            same_version = refl;
            same_state = refl;
            same_dates = (refl, refl);
          })
        refl refl
  apply-Effect parse (create_session path now s) db = before_session_create-Effect path now s db
  apply-Effect parse (delete_sessions p) db = fewer_rows db _ p refl refl
  apply-Effect parse (create_account path user a c) db =
      sequel (kept refl refl) (after_account_create-Effect path user a c _)
  apply-Effect parse (delete_accounts p) db = kept refl refl
  apply-Effect parse (verify_email token id email c d) db =
      after_email_verification-Effect parse token id email c d db
  apply-Effect parse (reset_password id c) db = on_password_reset-Effect id c db
  apply-Effect parse (end_request x random c) db =
      then_pure db (auth_after_hook adapter x random c db) _
        (auth_after_hook-Effect adapter lawful x random c db)

  -- Whatever the library writes in one request, also where a hook ends it.
  pub apply_all-Effect :
      (parse : Text → Option TokenPayload) (ws : List Write) (db : Db)
      → Effect db (apply_all adapter parse ws db).1
  unfolding apply_all
  apply_all-Effect parse [] db = kept refl refl
  apply_all-Effect parse (w ∷ ws) db =
      Effect-continue db (apply adapter parse w db) _ (apply-Effect parse w db)
        λ done. apply_all-Effect parse ws (apply adapter parse w db).1
