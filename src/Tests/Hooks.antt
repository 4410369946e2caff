-- ===== src/Tests/Hooks.antt =====
-- The theorems on the hooks of Better Auth at concrete calls.
use rsp_website.Prelude.{◌≡◌, refl, true, false, none, some, str_eq, codes, find_row, delete_rows}
use rsp_website.Lifecycle.Store.{suspension, SessionRevocationReason}
use rsp_website.Lifecycle.Tx.{ok, err, session_not_found, synchronization_pending}
use rsp_website.Lifecycle.Outbox.{other, failed, has_row}
use rsp_website.Lifecycle.Statements.{Call, find_user}
use rsp_website.Lifecycle.Service.{revoke_sessions}
use rsp_website.Lifecycle.Hooks.{
  Adapter, HookContext, NewSession, define_payload, auth_after_hook, announce_email_change,
}
use rsp_website.Lifecycle.Hooks.Sessions.{define_payload-revoked, IsHeld, auth_after_hook-IsHeld}
use rsp_website.Lifecycle.Hooks.Emails.{announce_email_change-is_cut_short}
use rsp_website.Tests.Samples.{ada, sample_db, call_at}

define_payload-revoked_example :
    let after = (revoke_sessions "ada" suspension (call_at 50) sample_db).1 in
    define_payload "s1" "ada" 60 300 after ≡ (err session_not_found, after)
unfolding find_user find_row has_row
define_payload-revoked_example =
    define_payload-revoked "ada" suspension (call_at 50) sample_db ada "s1" 60 300 refl refl

abbrev adapter : Adapter
adapter = record {
  delete_session = λ token db.
      (ok tt, record db { sessions = delete_rows (λ s. str_eq s.token token) db.sessions });
  create_verification = λ id value until db. (ok tt, db);
}

abbrev google_session : NewSession
google_session = record { token = "s1"; user = record { id = "ada"; two_factor_enabled = true } }

abbrev google_callback : HookContext
google_callback = record {
  path = "/callback/google";
  new_session = some google_session;
  session_user = none;
  failed = false;
}

auth_after_hook-IsHeld_example :
    IsHeld "s1"
      (codes "r")
      (adapter.delete_session "s1" sample_db)
      (auth_after_hook adapter google_callback (codes "r") (call_at 50) sample_db)
auth_after_hook-IsHeld_example =
    auth_after_hook-IsHeld adapter (λ token db. refl) (λ id value until db. refl) google_callback
      google_session (codes "r") (call_at 50) sample_db refl refl refl

abbrev unreachable : Call
unreachable = record {
  now = 50;
  event_id = "e1";
  attempt = record { outcome = failed other true; at = 50 };
}

announce_email_change-is_cut_short_example :
    announce_email_change "ada" "ada@example.com" unreachable (call_at 60) sample_db ≡ (
      err synchronization_pending,
      (revoke_sessions "ada" SessionRevocationReason.email_changed unreachable sample_db).1,
    )
unfolding find_user find_row has_row
announce_email_change-is_cut_short_example =
    announce_email_change-is_cut_short "ada" "ada@example.com" unreachable (call_at 60) sample_db
      ada refl refl other true refl
