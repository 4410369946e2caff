-- ===== src/Tests/Samples.antt =====
-- Sample data of the tests: a database with three accounts, and how calls go.
use rsp_website.Prelude.{ℕ, String, true, none, some, [], ◌∷◌, codes, Text}
use rsp_website.Security.AccessPolicy.{active, deletion_pending}
use rsp_website.Lifecycle.Store.{Db, User, Session, RecoveryToken}
use rsp_website.Lifecycle.Outbox.{accepted}
use rsp_website.Lifecycle.Statements.{Call}
use rsp_website.Lifecycle.Deletion.{DeletionRequest}
use rsp_website.Lifecycle.Service.{SuspensionOptions}

abbrev pub ada : User
ada = record {
  id = "ada";
  name = "Ada";
  email = "ada@example.org";
  email_verified = true;
  image = none;
  account_state = active;
  security_version = 3;
  deletion_requested_at = none;
  deletion_recovery_deadline = none;
  two_factor_enabled = true;
  updated_at = 10;
}

abbrev pub bob : User
bob = record ada {
  id = "bob";
  email = "bob@example.org";
  account_state = deletion_pending;
  deletion_requested_at = some 20;
  deletion_recovery_deadline = some 1000;
}

-- a token is its own hash in the tests
abbrev pub hash_text : Text → String
hash_text t = "hash"

abbrev pub token_text : Text
token_text = codes "abcdefghijklmnopqrstuvwxyz-012345"

abbrev pub bob_token : RecoveryToken
bob_token = record {
  id = "t1";
  user_id = "bob";
  token_hash = "hash";
  requested_at = 20;
  expires_at = 1000;
  used_at = none;
  revoked_at = none;
}

abbrev pub session_for : String → String → Session
session_for id uid = record { id = id; user_id = uid; token = id; mfa_verified_at = none }

abbrev pub sample_db : Db
sample_db = record {
  users = ada ∷ bob ∷ [];
  sessions = session_for "s1" "ada" ∷ session_for "s2" "bob" ∷ session_for "s3" "ada" ∷ [];
  accounts = [];
  two_factors = [];
  verifications = [];
  recovery_tokens = bob_token ∷ [];
  outbox = [];
}

abbrev pub call_at : ℕ → Call
call_at now = record {
  now = now;
  event_id = "e1";
  attempt = record { outcome = accepted; at = now };
}

abbrev pub deletion_request : DeletionRequest
deletion_request = record {
  auth_user_id = "ada";
  recovery_url = codes "https://rsp.example";
  recovery_deadline = 900;
  token = token_text;
  token_id = "t2";
  email_id = "m1";
  email_attempt = record { outcome = accepted; at = 50 };
}

abbrev pub moderation : SuspensionOptions
moderation = record { reason = some "spam"; actor_user_id = none }

abbrev pub other_hash : Text → String
other_hash t = "other"
