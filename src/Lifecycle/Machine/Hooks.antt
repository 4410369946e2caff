-- ===== src/Lifecycle/Machine/Hooks.antt =====
-- The hooks of Better Auth refine the machine (apps/auth/src/auth.ts).
use mathlib.Core.Path.{subst}
use rsp_website.Prelude.{
  ℕ, zero, suc, ◌≡◌, refl, sym, String, Bool, true, false, not, ◌&&◌, Option, none, some, List, ◌∷◌,
  Bool-cases, Option-cases, inl, inr, str_eq, Text, delete_rows, All,
}
use rsp_website.Prelude.Tables.{All-delete_rows}
use rsp_website.Lifecycle.Store.{Db, User, Session, Account, SessionRevocationReason}
use rsp_website.Lifecycle.Tx.{Error, version_or_throw, Result, ok, err, Tx, continue, pure}
use rsp_website.Lifecycle.Statements.{Call, find_user}
use rsp_website.Lifecycle.Service.{revoke_sessions, record_mfa_state}
use rsp_website.Lifecycle.Hooks.{
  Adapter, HookContext, NewSession, SessionUser, TokenPayload, is_active_row, before_session_create,
  current_security_version, after_user_create, after_account_create, on_password_reset,
  announce_email_change, announce_verification, after_email_verification, is_email_change,
  challenge, after_google, after_disable, revoke_for, sensitive_reason, auth_after_hook,
}
use rsp_website.Lifecycle.Hooks.Sessions.{IsDeletion}
use rsp_website.Lifecycle.Machine.Effects.{Effect, kept, signed_in, fewer}
use rsp_website.Lifecycle.Machine.Refinement.{revoke_sessions-Effect, record_mfa_state-Effect}
use rsp_website.Lifecycle.Machine.Sweeps.{Effect-continue, queue_identity_event-Effect}

-- What the library's own writes do: those of sessions delete the one with the token, where they do not
-- throw, and those of verification values touch neither sessions nor accounts.
pub record IsAdapter (adapter : Adapter) : Type 0 where
  pub delete_users :
      (token : String) (db : Db) → (adapter.delete_session token db).1.users ≡ db.users
  pub delete_session :
      (token : String) (db : Db) → IsDeletion token db (adapter.delete_session token db)
  pub create_users :
      (id : Text) (value : String) (end : ℕ) (db : Db)
      → (adapter.create_verification id value end db).1.users ≡ db.users
  pub create_sessions :
      (id : Text) (value : String) (end : ℕ) (db : Db)
      → (adapter.create_verification id value end db).1.sessions ≡ db.sessions

pub fewer_rows :
    (db after : Db) (p : Session → Bool)
    → after.users ≡ db.users
    → after.sessions ≡ delete_rows p db.sessions
    → Effect db after
fewer_rows db after p users sessions = fewer users λ q h.
    subst (λ (ss : List Session). All (λ s. q s.user_id ≡ true) ss) (sym sessions)
      (All-delete_rows (λ (s : Session). q s.user_id ≡ true) p db.sessions h)

deletion-Effect :
    (token : String) (db : Db) (r : Result (Unit {0}) × Db)
    → r.1.users ≡ db.users
    → IsDeletion token db r
    → Effect db r.1
deletion-Effect token db (ok done, after) users h =
    fewer_rows db after (λ s. str_eq s.token token) users h
deletion-Effect token db (err e, after) users (inl same) = kept users same
deletion-Effect token db (err e, after) users (inr h) =
    fewer_rows db after (λ s. str_eq s.token token) users h

version_or_throw_db : (o : Option ℕ) (e : Error) (db : Db) → (version_or_throw o e db).1 ≡ db
version_or_throw_db none e db = refl
version_or_throw_db (some zero) e db = refl
version_or_throw_db (some (suc v)) e db = refl

current_security_version_db : (uid : String) (db : Db) → (current_security_version uid db).1 ≡ db
unfolding current_security_version
current_security_version_db uid db = version_or_throw_db _ _ db

-- A part that only reads hands its state on.
read_then :
    {A B : Type 0} (r : Result A × Db) (db : Db) (k : A → Tx B)
    → r.1 ≡ db
    → ((a : A) → Effect db (k a db).1)
    → Effect db (continue r k).1
read_then (ok a, mid) db k e h = subst (λ d. Effect db (k a d).1) (sym e) (h a)
read_then (err x, mid) db k e h = subst (λ d. Effect db d) (sym e) (kept refl refl)

-- What follows an operation without a further write.
pub then_pure :
    {A B : Type 0} (db : Db) (r : Result A × Db) (k : A → B)
    → Effect db r.1
    → Effect db (continue r (λ a. pure (k a))).1
then_pure db r k h = Effect-continue db r (λ a. pure (k a)) h λ a. kept refl refl

pub before_session_create-Effect :
    (path : Option String) (now : ℕ) (s : Session) (db : Db)
    → Effect db
        (continue
          (before_session_create path now s db)
          (λ stored d. (ok tt, record d { sessions = stored ∷ d.sessions }))).1
unfolding before_session_create
before_session_create-Effect path now s db =
    elim (Bool-cases (is_active_row (find_user s.user_id db))) [
      | inl live ↦ rw live (signed_in _ live refl refl)
      | inr closed ↦ rw closed (kept refl refl)
    ]

pub after_user_create-Effect :
    (u : User) (c : Call) (db : Db) → Effect db (after_user_create u c db).1
unfolding after_user_create
after_user_create-Effect u c db =
    read_then (current_security_version u.id db) db _ (current_security_version_db u.id db)
      λ version. queue_identity_event-Effect c.event_id _ false c.attempt db

pub after_account_create-Effect :
    (path user : Option String) (a : Account) (c : Call) (db : Db)
    → Effect db (after_account_create path user a c db).1
unfolding after_account_create
after_account_create-Effect none user a c db = kept refl refl
after_account_create-Effect (some path) none a c db = kept refl refl
after_account_create-Effect (some path) (some user) a c db =
    elim (Bool-cases
      (str_eq path "/callback/google" && str_eq a.provider_id "google" && str_eq user a.user_id)) [
        | inl linked ↦ rw linked (
            then_pure db (revoke_sessions a.user_id SessionRevocationReason.provider_linked c db) _
              (revoke_sessions-Effect a.user_id c db SessionRevocationReason.provider_linked))
        | inr other ↦ rw other (kept refl refl)
      ]

announce_verification-Effect :
    (id : String) (d : Call) (db : Db) → Effect db (announce_verification id d db).1
unfolding announce_verification
announce_verification-Effect id d db =
    read_then (current_security_version id db) db _ (current_security_version_db id db)
      λ version. queue_identity_event-Effect d.event_id _ false d.attempt db

announce_email_change-Effect :
    (id email : String) (c d : Call) (db : Db) → Effect db (announce_email_change id email c d db).1
unfolding announce_email_change
announce_email_change-Effect id email c d db =
    let revoked = revoke_sessions id SessionRevocationReason.email_changed c db in
    Effect-continue db revoked _
      (revoke_sessions-Effect id c db SessionRevocationReason.email_changed)
      λ n.
        read_then (current_security_version id revoked.1) revoked.1 _
          (current_security_version_db id revoked.1)
          λ version. queue_identity_event-Effect d.event_id _ true d.attempt revoked.1

pub after_email_verification-Effect :
    (parse : Text → Option TokenPayload) (token : Option Text) (id email : String) (c d : Call)
    (db : Db)
    → Effect db (after_email_verification parse token id email c d db).1
unfolding after_email_verification
after_email_verification-Effect parse token id email c d db =
    elim (Bool-cases (is_email_change parse token email)) [
      | inl changed ↦ rw changed (announce_email_change-Effect id email c d db)
      | inr same ↦ rw same (announce_verification-Effect id d db)
    ]

pub on_password_reset-Effect :
    (id : String) (c : Call) (db : Db) → Effect db (on_password_reset id c db).1
unfolding on_password_reset
on_password_reset-Effect id c db =
    then_pure db (revoke_sessions id SessionRevocationReason.password_reset c db) _
      (revoke_sessions-Effect id c db SessionRevocationReason.password_reset)

module _ (adapter : Adapter) (lawful : IsAdapter adapter) where
  challenge-Effect :
      (s : NewSession) (random : Text) (now : ℕ) (db : Db)
      → Effect db (challenge adapter s random now db).1
  unfolding challenge
  challenge-Effect s random now db =
      Effect-continue db (adapter.delete_session s.token db) _
        (deletion-Effect s.token db (adapter.delete_session s.token db)
          (lawful.delete_users s.token db) (lawful.delete_session s.token db))
        λ one.
          Effect-continue _ (adapter.create_verification _ _ _ _) _
            (kept (lawful.create_users _ _ _ _) (lawful.create_sessions _ _ _ _))
            λ two.
              Effect-continue _ (adapter.create_verification _ _ _ _) _
                (kept (lawful.create_users _ _ _ _) (lawful.create_sessions _ _ _ _))
                λ three. kept refl refl

  after_google-Effect :
      (s : Option NewSession) (random : Text) (now : ℕ) (db : Db)
      → Effect db (after_google adapter s random now db).1
  unfolding after_google
  after_google-Effect none random now db = kept refl refl
  after_google-Effect (some s) random now db = elim (Bool-cases s.user.two_factor_enabled) [
    | inl on ↦ rw on (challenge-Effect s random now db)
    | inr off ↦ rw off (kept refl refl)
  ]

  after_disable-Effect : (x : HookContext) (c : Call) (db : Db) → Effect db (after_disable x c db).1
  unfolding after_disable
  after_disable-Effect x c db = elim (Option-cases x.session_user) [
    | inl e ↦ rw e (kept refl refl)
    | inr (u, e) ↦
        elim (Bool-cases
          (str_eq x.path "/two-factor/disable" && not x.failed && u.two_factor_enabled)) [
            | inl on ↦ rw e (
                rw on (
                  then_pure db (record_mfa_state u.id false c db) _
                    (record_mfa_state-Effect u.id c db false)))
            | inr off ↦ rw e (rw off (kept refl refl))
          ]
  ]

  revoke_for-Effect :
      (reason : Option SessionRevocationReason) (user : Option SessionUser) (failed : Bool)
      (c : Call) (db : Db)
      → Effect db (revoke_for reason user failed c db).1
  unfolding revoke_for
  revoke_for-Effect none user failed c db = kept refl refl
  revoke_for-Effect (some r) none failed c db = kept refl refl
  revoke_for-Effect (some r) (some u) true c db = kept refl refl
  revoke_for-Effect (some r) (some u) false c db = elim (Bool-cases (str_eq u.id "")) [
    | inl blank ↦ rw blank (kept refl refl)
    | inr named ↦
        rw named (then_pure db (revoke_sessions u.id r c db) _ (revoke_sessions-Effect u.id c db r))
  ]

  pub auth_after_hook-Effect :
      (x : HookContext) (random : Text) (c : Call) (db : Db)
      → Effect db (auth_after_hook adapter x random c db).1
  unfolding auth_after_hook
  auth_after_hook-Effect x random c db = elim (Bool-cases (str_eq x.path "/callback/google")) [
    | inl google ↦ rw google (after_google-Effect x.new_session random c.now db)
    | inr other ↦ rw other (
        Effect-continue db (after_disable x c db) _ (after_disable-Effect x c db) λ cleared.
          Effect-continue _
            (revoke_for (sensitive_reason x.path) x.session_user x.failed c
              (after_disable x c db).1)
            _
            (revoke_for-Effect (sensitive_reason x.path) x.session_user x.failed c
              (after_disable x c db).1)
            λ done. kept refl refl)
  ]
