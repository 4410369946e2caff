-- ===== src/Lifecycle/Hooks/Sessions.antt =====
-- What the hooks guarantee of sessions and access tokens (apps/auth/src/auth.ts).
use mathlib.Core.Option
use mathlib.Core.Path.{subst}
use rsp_website.Prelude.{
  ℕ, ◌≡◌, refl, sym, String, true, false, ◌⊎◌, inl, inr, none, some, List, [], ◌∷◌, arith, All,
  Text, str_eq, find_row, delete_rows,
}
use rsp_website.Prelude.Tables.{All-deleted}
use rsp_website.Lifecycle.Store.{Db, User, Session, SessionRevocationReason}
use rsp_website.Lifecycle.Tx.{Result, ok, err, Error, session_not_found, continue}
use rsp_website.Lifecycle.Outbox.{has_row}
use rsp_website.Lifecycle.Statements.{Call, session_of, find_user}
use rsp_website.Lifecycle.Statements.Commits.{IsSignedOut}
use rsp_website.Lifecycle.Service.{revoke_sessions}
use rsp_website.Lifecycle.Service.Revocation.{revoke_sessions-IsCutOff}
use rsp_website.Lifecycle.Hooks.{
  is_session, access_row, define_payload, Adapter, NewSession, HookContext, HookReply, redirects,
  challenge, challenge_id, after_google, auth_after_hook,
}

no_session_row :
    (sid uid : String) (rows : List Session)
    → All (λ s. session_of uid s ≡ false) rows
    → find_row (is_session sid uid) rows ≡ none
unfolding find_row
no_session_row sid uid [] h = refl
no_session_row sid uid (s ∷ rows) (q, h) = ground (arith, q, no_session_row sid uid rows h)

-- An account that is signed out everywhere gets no access token.
define_payload-signed_out :
    (sid uid : String) (now max_age : ℕ) (db : Db)
    → IsSignedOut uid db
    → define_payload sid uid now max_age db ≡ (err session_not_found, db)
unfolding define_payload access_row Option.bind
define_payload-signed_out sid uid now max_age db h = rw (no_session_row sid uid db.sessions h) refl

-- Once the sessions of a known account are revoked, no access token is made for it from any session,
-- also where the API could not be told. The row ID of the event is new.
pub define_payload-revoked :
    (uid : String) (reason : SessionRevocationReason) (c : Call) (db : Db) (u : User) (sid : String)
    (now max_age : ℕ)
    → find_user uid db ≡ some u
    → has_row c.event_id db.outbox ≡ false
    → let after = (revoke_sessions uid reason c db).1 in
      define_payload sid uid now max_age after ≡ (err session_not_found, after)
define_payload-revoked uid reason c db u sid now max_age found fresh =
    define_payload-signed_out sid uid now max_age (revoke_sessions uid reason c db).1
      (revoke_sessions-IsCutOff uid c db u found fresh reason).0.signed_out

-- What the library's deletion of a session leaves: if it reports success the sessions with the token
-- are gone, and if it throws they may be gone or the sessions are as they were.
abbrev pub IsDeletion : String → Db → Result (Unit {0}) × Db → Type 0
IsDeletion token db (ok done, after) =
    after.sessions ≡ delete_rows (λ s. str_eq s.token token) db.sessions
IsDeletion token db (err e, after) =
    (after.sessions ≡ db.sessions)
    ⊎ (after.sessions ≡ delete_rows (λ s. str_eq s.token token) db.sessions)

-- No session has the token.
abbrev pub IsGone : String → Db → Type 0
IsGone token db = All (λ (s : Session). str_eq s.token token ≡ false) db.sessions

-- The request is sent to the second factor or fails, and no session has the token; or the deletion of
-- the session has failed with the error with which the request fails.
abbrev pub IsHeld : String → Text → Result (Unit {0}) × Db → Result HookReply × Db → Type 0
IsHeld token random (deleted, left) (r, after) =
    (IsGone token after
      × ((r ≡ ok (redirects (challenge_id random))) ⊎ ((e : Error) × (r ≡ err e))))
    ⊎ ((e : Error) × (deleted ≡ err e) × (r ≡ err e) × (after ≡ left))

-- The first alternative alone.
abbrev IsSentOn : String → Text → Result HookReply × Db → Type 0
IsSentOn token random (r, after) =
    IsGone token after × ((r ≡ ok (redirects (challenge_id random))) ⊎ ((e : Error) × (r ≡ err e)))

-- A part that fails ends the hook, and what follows one that succeeds holds the session.
then-IsSentOn :
    (token : String) (random : Text) (r : Result (Unit {0}) × Db)
    (k : Unit {0} → Db → Result HookReply × Db)
    → IsGone token r.1
    → IsSentOn token random (k tt r.1)
    → IsSentOn token random (continue r k)
then-IsSentOn token random (ok tt, db) k free next = next
then-IsSentOn token random (err e, db) k free next = (free, inr (e, refl))

-- The deletion comes first.
deleted-IsHeld :
    (token : String) (random : Text) (db : Db) (r : Result (Unit {0}) × Db)
    (k : Unit {0} → Db → Result HookReply × Db)
    → IsDeletion token db r
    → (IsGone token r.1 → IsSentOn token random (k tt r.1))
    → IsHeld token random r (continue r k)
deleted-IsHeld token random db (ok tt, after) k deletion next = inl (
    next (
      subst (λ (ys : List Session). All (λ y. str_eq y.token token ≡ false) ys) (sym deletion)
        (All-deleted (λ y. str_eq y.token token) db.sessions)))
deleted-IsHeld token random db (err e, after) k deletion next = inr (e, refl, refl, refl)

module _ (adapter : Adapter)
    (gone : (token : String) (db : Db) → IsDeletion token db (adapter.delete_session token db))
    (apart : (id : Text) (value : String) (until : ℕ) (db : Db)
      → (adapter.create_verification id value until db).1.sessions ≡ db.sessions) where
  challenge-IsHeld :
      (s : NewSession) (random : Text) (now : ℕ) (db : Db)
      → IsHeld s.token random
          (adapter.delete_session s.token db)
          (challenge adapter s random now db)
  unfolding challenge
  challenge-IsHeld s random now db =
      let kept : (id : Text) (value : String) (until : ℕ) (x : Db)
          → IsGone s.token x
          → IsGone s.token (adapter.create_verification id value until x).1 =
        λ id value until x h.
          subst (λ (ys : List Session). All (λ y. str_eq y.token s.token ≡ false) ys)
            (sym (apart id value until x)) h in
      deleted-IsHeld s.token random db (adapter.delete_session s.token db) _ (gone s.token db)
        λ free.
          then-IsSentOn s.token random (adapter.create_verification _ _ _ _) _ (kept _ _ _ _ free) (
            then-IsSentOn s.token random (adapter.create_verification _ _ _ _) _
              (kept _ _ _ _ (kept _ _ _ _ free)) (kept _ _ _ _ (kept _ _ _ _ free), inl refl))

  -- A Google sign-in of an account with a second factor leaves no session with the token that it was
  -- given and is sent to the second factor or fails; or the library could not delete that session,
  -- and then the sign-in fails with the library's error. The library's verification values are no
  -- sessions.
  pub auth_after_hook-IsHeld :
      (x : HookContext) (s : NewSession) (random : Text) (c : Call) (db : Db)
      → str_eq x.path "/callback/google" ≡ true
      → x.new_session ≡ some s
      → s.user.two_factor_enabled ≡ true
      → IsHeld s.token random
          (adapter.delete_session s.token db)
          (auth_after_hook adapter x random c db)
  unfolding auth_after_hook after_google
  auth_after_hook-IsHeld x s random c db google new on =
      rw (google, new) (rw on (challenge-IsHeld s random c.now db))
