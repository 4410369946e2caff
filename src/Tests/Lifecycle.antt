-- ===== src/Tests/Lifecycle.antt =====
-- The theorems on the account lifecycle at the sample database.
use mathlib.Core.Option
use rsp_website.Prelude.{
  inl, inr, arith, ◌≡◌, ◌⊎◌, refl, String, true, some, [], select_rows, delete_rows, find_row,
}
use rsp_website.Lifecycle.Policy.{is_deletion_recoverable}
use rsp_website.Lifecycle.Outbox.{has_row, accepted}
use rsp_website.Lifecycle.Store.{suspension}
use rsp_website.Lifecycle.Tx.{ok, err, invalid_recovery_token, synchronization_pending}
use rsp_website.Lifecycle.Statements.{find_user, bump}
use rsp_website.Lifecycle.Statements.Commits.{IsCutOff}
use rsp_website.Lifecycle.Service.{set_suspended, revoke_sessions}
use rsp_website.Lifecycle.Service.Suspension.{suspended_user, set_suspended-IsCutOff}
use rsp_website.Lifecycle.Service.Revocation.{revoke_sessions-IsCutOff}
use rsp_website.Lifecycle.Deletion.{
  recover, mark_active, is_open_of, cancel_deletion_of, is_token, can_recover, find_recovery,
}
use rsp_website.Lifecycle.Deletion.Recovery.{recover-is_single_use, recover_refused}
use rsp_website.Lifecycle.Deletion.Effects.{cancel_deletion-restores}
use rsp_website.Lifecycle.Erasure.{Draw, pseudonymize_of, erase_account, is_taken}
use rsp_website.Lifecycle.Erasure.Erased.{nameless, IsErased}
use rsp_website.Lifecycle.Erasure.Outcome.{pseudonymize-IsErased}
use rsp_website.Tests.Samples.{
  ada, bob, bob_token, hash_text, token_text, sample_db, call_at, moderation,
}

recover-is_single_use_example :
    let after = (recover hash_text token_text (call_at 500) sample_db).1 in
    (find_user "bob" after ≡ some (mark_active 500 bob))
    × (recover hash_text token_text (call_at 600) after ≡ (err invalid_recovery_token, after))
    × (recover hash_text token_text
          (call_at 600)
          (record sample_db { recovery_tokens = after.recovery_tokens })
        ≡ (
          err invalid_recovery_token,
          record sample_db { recovery_tokens = after.recovery_tokens },
        ))
unfolding is_token find_recovery find_user can_recover find_row select_rows has_row
    is_deletion_recoverable Option.bind
recover-is_single_use_example =
    recover-is_single_use hash_text token_text (call_at 500) sample_db bob_token bob refl refl refl
      refl refl (call_at 600)
      (record sample_db {
        recovery_tokens = (recover hash_text token_text (call_at 500) sample_db).1.recovery_tokens;
      })
      [] tt refl

recover_refused_example :
    recover hash_text token_text (call_at 1000) sample_db ≡ (err invalid_recovery_token, sample_db)
unfolding find_recovery find_user find_row Option.bind
recover_refused_example =
    recover_refused hash_text token_text (call_at 1000) sample_db
      (inr (inr (bob_token, bob, refl, inl (ground arith))))

cancel_deletion-restores_example :
    let after = (cancel_deletion_of "bob" (call_at 500) sample_db).1 in
    (find_user "bob" after ≡ some (mark_active 500 bob))
    × (select_rows (is_open_of "bob") after.recovery_tokens ≡ [])
    × ((other : String) → (other ≡ "bob") ⊎ (find_user other after ≡ find_user other sample_db))
unfolding find_user find_row is_deletion_recoverable has_row
cancel_deletion-restores_example =
    cancel_deletion-restores "bob" (call_at 500) sample_db bob refl refl refl

set_suspended-IsCutOff_example :
    IsCutOff "ada"
      (suspended_user true 50)
      ada
      sample_db
      (set_suspended "ada" true moderation (call_at 50) sample_db).1
unfolding find_user find_row has_row
set_suspended-IsCutOff_example =
    set_suspended-IsCutOff "ada" true moderation (call_at 50) sample_db ada refl refl refl

revoke_sessions-IsCutOff_example :
    let (r, after) = revoke_sessions "ada" suspension (call_at 50) sample_db in
    IsCutOff "ada" (bump 50) ada sample_db after × ((r ≡ ok 2) ⊎ (r ≡ err synchronization_pending))
unfolding find_user find_row has_row select_rows
revoke_sessions-IsCutOff_example =
    revoke_sessions-IsCutOff "ada" (call_at 50) sample_db ada refl refl suspension

pseudonymize-IsErased_example :
    let after = (pseudonymize_of "bob" (call_at 2000) sample_db).1 in
    (find_user "bob" after ≡ some (nameless 2000 bob))
    × IsErased "bob" "bob@example.org" "e1" after
    × ((other : String) → (other ≡ "bob") ⊎ (find_user other after ≡ find_user other sample_db))
unfolding find_user find_row erase_account is_taken has_row delete_rows
pseudonymize-IsErased_example =
    pseudonymize-IsErased "bob" (call_at 2000) sample_db bob 1000 refl refl refl (omega arith) refl
      refl

abbrev draw_for : String → Draw
draw_for id = record { event_id = "e1"; attempt = record { outcome = accepted; at = 2000 } }
