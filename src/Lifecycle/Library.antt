-- ===== src/Lifecycle/Library.antt =====
-- What Better Auth does to the tables while it handles a request, as a list of writes in the order
-- of the request, with the hooks of apps/auth/src/auth.ts where its configuration places them. Which
-- writes a request causes is the library's choice, so every list is allowed. A hook that throws ends
-- the request, and what was written before it stays.
use rsp_website.Prelude.{
  ℕ, String, Bool, Option, none, List, [], ◌∷◌, is_some, Text, update_rows, delete_rows,
}
use rsp_website.Security.AccessPolicy.{active}
use rsp_website.Lifecycle.Store.{User, Session, Account}
use rsp_website.Lifecycle.Tx.{constraint_violation, Tx, pure, gets, ◌>>=◌, ◌>>◌, modify, throw_if}
use rsp_website.Lifecycle.Statements.{Call, of_user, find_user}
use rsp_website.Lifecycle.Hooks.{
  TokenPayload, Adapter, HookContext, before_session_create, after_user_create,
  after_account_create, on_password_reset, after_email_verification, auth_after_hook,
}

-- the columns that the library writes; those of the lifecycle are `input: false`
pub record Profile : Type 0 where
  pub name : String
  pub email : String
  pub email_verified : Bool
  pub image : Option String
  pub two_factor_enabled : Bool
  pub updated_at : ℕ

-- a row with the default values of `additionalFields`
unfoldable pub new_user : String → Profile → User
new_user id p = record {
  id = id;
  name = p.name;
  email = p.email;
  email_verified = p.email_verified;
  image = p.image;
  account_state = active;
  security_version = 1;
  deletion_requested_at = none;
  deletion_recovery_deadline = none;
  two_factor_enabled = p.two_factor_enabled;
  updated_at = p.updated_at;
}

unfoldable pub edit_user : Profile → User → User
edit_user p u = record u {
  name = p.name;
  email = p.email;
  email_verified = p.email_verified;
  image = p.image;
  two_factor_enabled = p.two_factor_enabled;
  updated_at = p.updated_at;
}

pub data Write : Type 0 where
  create_user : String → Profile → Call → Write
  update_user : String → Profile → Write
  -- the path of the request and the time
  create_session : Option String → ℕ → Session → Write
  -- the sessions that pass the test go
  delete_sessions : (Session → Bool) → Write
  -- the path of the request and the user of its session
  create_account : Option String → Option String → Account → Call → Write
  delete_accounts : (Account → Bool) → Write
  verify_email : Option Text → (id email : String) → Call → Call → Write
  reset_password : String → Call → Write
  end_request : HookContext → Text → Call → Write

unfoldable pub insert_user : String → Profile → Tx (Unit {0})
unfolding find_user new_user
insert_user id p = do
  throw_if (← gets (λ db. is_some (find_user id db))) constraint_violation
  modify (λ db. record db { users = new_user id p ∷ db.users })

unfoldable pub apply : Adapter → (Text → Option TokenPayload) → Write → Tx (Unit {0})
unfolding insert_user before_session_create
apply adapter parse (create_user id p c) = insert_user id p >> after_user_create (new_user id p) c
apply adapter parse (update_user id p) =
    modify (λ db. record db { users = update_rows (of_user id) (edit_user p) db.users })
apply adapter parse (create_session path now s) = do
  stored ← before_session_create path now s
  modify (λ db. record db { sessions = stored ∷ db.sessions })
apply adapter parse (delete_sessions p) =
    modify (λ db. record db { sessions = delete_rows p db.sessions })
apply adapter parse (create_account path linking_user account c) = do
  modify (λ db. record db { accounts = account ∷ db.accounts })
  after_account_create path linking_user account c
apply adapter parse (delete_accounts p) =
    modify (λ db. record db { accounts = delete_rows p db.accounts })
apply adapter parse (verify_email token id email c d) =
    after_email_verification parse token id email c d
apply adapter parse (reset_password id c) = on_password_reset id c
apply adapter parse (end_request x random c) = auth_after_hook adapter x random c >> pure tt

unfoldable pub apply_all : Adapter → (Text → Option TokenPayload) → List Write → Tx (Unit {0})
unfolding apply
apply_all adapter parse [] = pure tt
apply_all adapter parse (w ∷ ws) = apply adapter parse w >> apply_all adapter parse ws
