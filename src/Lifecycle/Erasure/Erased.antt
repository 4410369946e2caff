-- ===== src/Lifecycle/Erasure/Erased.antt =====
-- What is left of an account that is pseudonymised (`pseudonymize`), in its row and in the tables.
use Prim.Native.String
use rsp_website.Prelude.Texts.{to_lower}
use rsp_website.Security.AccessPolicy.{deleted}
use rsp_website.Prelude.{
  ℕ, ◌≢◌, eq_iff, text_eq_iff, codes, ◌+◌, ◌≡◌, refl, ◌⊎◌, inl, inr, String, false, none, ◌||◌,
  arith, All, str_eq,
}
use rsp_website.Prelude.Tables.{All-weaken}
use rsp_website.Lifecycle.Store.{
  Db, User, OutboxRow, Session, Account, TwoFactor, Verification, RecoveryToken, Payload, email,
  identity,
}
use rsp_website.Lifecycle.Statements.{bump}
use rsp_website.Lifecycle.Erasure.{concerns, mark_deleted, reserved_email}

-- No row of the account is left, and the outbox mentions it in the rows with the given ID alone.
pub record IsCleared (uid address event_id : String) (db : Db) : Type 0 where
  pub no_session : All (λ (s : Session). str_eq s.user_id uid ≡ false) db.sessions
  pub no_account : All (λ (a : Account). str_eq a.user_id uid ≡ false) db.accounts
  pub no_factor : All (λ (t : TwoFactor). str_eq t.user_id uid ≡ false) db.two_factors
  pub no_verification :
      All
        (λ (v : Verification). (str_eq v.identifier address || str_eq v.value uid) ≡ false)
        db.verifications
  pub no_token : All (λ (t : RecoveryToken). str_eq t.user_id uid ≡ false) db.recovery_tokens
  pub no_message :
      All
        (λ (r : OutboxRow). (r.id ≡ event_id) ⊎ (concerns uid address r.payload ≡ false))
        db.outbox

-- An event of another account, or a message to another address, in whatever case.
abbrev pub IsUnrelated : String → String → Payload → Type 0
IsUnrelated uid address (identity e) = e.auth_user_id ≢ uid
IsUnrelated uid address (email m) = to_lower (codes m.to) ≢ to_lower (codes address)

-- No row of the account is left, and the outbox has only the row with the given ID, events of other
-- accounts, and messages to other addresses.
pub record IsErased (uid address event_id : String) (db : Db) : Type 0 where
  pub no_session : All (λ (s : Session). s.user_id ≢ uid) db.sessions
  pub no_account : All (λ (a : Account). a.user_id ≢ uid) db.accounts
  pub no_factor : All (λ (t : TwoFactor). t.user_id ≢ uid) db.two_factors
  pub no_verification :
      All (λ (v : Verification). (v.identifier ≢ address) × (v.value ≢ uid)) db.verifications
  pub no_token : All (λ (t : RecoveryToken). t.user_id ≢ uid) db.recovery_tokens
  pub no_message :
      All (λ (r : OutboxRow). (r.id ≡ event_id) ⊎ IsUnrelated uid address r.payload) db.outbox

-- What is left of an account.
abbrev pub nameless : ℕ → User → User
nameless now u = record {
  id = u.id;
  name = "Deleted member";
  email = String.◌++◌ "deleted+" (String.◌++◌ u.id "@invalid.rsp.local");
  email_verified = false;
  image = none;
  account_state = deleted;
  security_version = u.security_version + 1;
  deletion_requested_at = none;
  deletion_recovery_deadline = none;
  two_factor_enabled = false;
  updated_at = now;
}

pub nameless_lem : (now : ℕ) (u : User) → mark_deleted now u ≡ nameless now u
unfolding mark_deleted bump reserved_email
nameless_lem now u = refl

differs : (a b : String) → str_eq a b ≡ false → a ≢ b
differs a b h = ground (arith, eq_iff a b)

unrelated :
    (uid address : String) (p : Payload)
    → concerns uid address p ≡ false
    → IsUnrelated uid address p
unfolding concerns
unrelated uid address (identity e) h = differs e.auth_user_id uid h
unrelated uid address (email m) h =
    ground (arith, text_eq_iff (to_lower (codes m.to)) (to_lower (codes address)))

pub cleared-IsErased :
    (uid address event_id : String) (db : Db)
    → IsCleared uid address event_id db
    → IsErased uid address event_id db
cleared-IsErased uid address event_id db h = record {
  no_session = All-weaken _ _ db.sessions (λ s. differs s.user_id uid) h.no_session;
  no_account = All-weaken _ _ db.accounts (λ a. differs a.user_id uid) h.no_account;
  no_factor = All-weaken _ _ db.two_factors (λ t. differs t.user_id uid) h.no_factor;
  no_verification =
      All-weaken _ _ db.verifications
        (λ v e. ground (arith, eq_iff v.identifier address, eq_iff v.value uid)) h.no_verification;
  no_token = All-weaken _ _ db.recovery_tokens (λ t. differs t.user_id uid) h.no_token;
  no_message =
      All-weaken _ _ db.outbox
        (λ r e. elim e [
          | inl named ↦ inl named
          | inr other ↦ inr (unrelated uid address r.payload other)
        ])
        h.no_message;
}
