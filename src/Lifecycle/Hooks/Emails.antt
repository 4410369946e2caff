-- ===== src/Lifecycle/Hooks/Emails.antt =====
-- What the hooks announce when an address is verified (apps/auth/src/auth.ts).
use rsp_website.Prelude.{◌≡◌, refl, String, Bool, false, some}
use rsp_website.Lifecycle.Store.{Db, User, SessionRevocationReason}
use rsp_website.Lifecycle.Tx.{err, synchronization_pending}
use rsp_website.Lifecycle.Outbox.{Thrown, failed, has_row, is_accepted, require_identity_delivery}
use rsp_website.Lifecycle.Statements.{Call, find_user}
use rsp_website.Lifecycle.Service.{revoke_sessions}
use rsp_website.Lifecycle.Service.Revocation.{revoke_sessions_lem}
use rsp_website.Lifecycle.Hooks.{announce_email_change}

module _ (id email : String) (c d : Call) (db : Db) (u : User) (found : find_user id db ≡ some u)
    (fresh : has_row c.event_id db.outbox ≡ false) where
  -- Where the API does not take the revocation of the sessions at once, the completed change of an
  -- address ends with the error that a retry is pending, and nothing is done beyond the revocation:
  -- no event tells the API of the new address.
  pub announce_email_change-is_cut_short :
      (thrown : Thrown) (recorded : Bool)
      → c.attempt.outcome ≡ failed thrown recorded
      → announce_email_change id email c d db ≡ (
        err synchronization_pending,
        (revoke_sessions id SessionRevocationReason.email_changed c db).1,
      )
  unfolding announce_email_change require_identity_delivery is_accepted
  announce_email_change-is_cut_short thrown recorded lost =
      rw (revoke_sessions_lem id c db SessionRevocationReason.email_changed, found)
        (rw (fresh, lost) refl)
