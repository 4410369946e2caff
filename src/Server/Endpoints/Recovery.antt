-- ===== src/Server/Endpoints/Recovery.antt =====
-- The recovery link over HTTP (apps/auth/src/server.ts).
use rsp_website.Prelude.{
  refl, length, select_rows, ◌≡◌, sym, ◌∙◌, ap, true, false, List, [], some, ℕ, codes,
}
use rsp_website.Lifecycle.Store.{Db, User, RecoveryToken}
use rsp_website.Lifecycle.Tx.{ok}
use rsp_website.Lifecycle.Outbox.{has_row}
use rsp_website.Lifecycle.Statements.{find_user}
use rsp_website.Lifecycle.Deletion.{
  recover, is_token, find_recovery, can_recover, is_open_hash, mark_active,
}
use rsp_website.Lifecycle.Deletion.Recovery.{recover-is_single_use}
use rsp_website.Server.InternalApi.{Draws, post_method}
use rsp_website.Server.Http.{HttpEnv, HttpRequest, html}
use rsp_website.Server.Pages.{render_deletion_recovery_page}
use rsp_website.Server.Endpoints.{form_field, recovery_reply, used_link, recovery_endpoint}
use rsp_website.Server.Endpoints.Effects.{recovery_reply-db}

-- A recovery link that is followed and accepted makes its account active, and cannot be used again:
-- when the form is sent once more, the answer is the page of status 410 and nothing changes. The token
-- is well formed, one record of it is open, its account can be recovered, and the row ID of the event
-- is new.
pub recovery_endpoint-is_single_use :
    (env : HttpEnv) (r later : HttpRequest) (body : List ℕ) (d again : Draws) (db : Db)
    (t : RecoveryToken) (u : User)
    → let token = form_field env body (codes "token") in
      let after = (recovery_endpoint env r body d post_method db).1 in
      is_token token ≡ true
      → find_recovery (env.internal.hash token) db ≡ some (t, u)
      → can_recover d.call.now (t, u) ≡ true
      → length (select_rows (is_open_hash (env.internal.hash token)) db.recovery_tokens) ≡ 1
      → has_row d.call.event_id db.outbox ≡ false
      → (find_user t.user_id after ≡ some (mark_active d.call.now u))
        × (recovery_endpoint env later body again post_method after
            ≡ (ok (html 410 (render_deletion_recovery_page [] (some used_link))), after))
unfolding recovery_endpoint
recovery_endpoint-is_single_use env r later body d again db t u formed known usable unique fresh =
    let token = form_field env body (codes "token") in
    let same : (recovery_reply (recover env.internal.hash token d.call db)).1
        ≡ (recover env.internal.hash token d.call db).1 =
      recovery_reply-db (recover env.internal.hash token d.call db) in
    let (restored, refused, others) =
      recover-is_single_use env.internal.hash token d.call db t u formed known usable unique fresh
        again.call (recover env.internal.hash token d.call db).1 [] tt refl in
    (
      ap (find_user t.user_id) same ∙ restored,
      ap (λ x. recovery_reply (recover env.internal.hash token again.call x)) same
          ∙ ap recovery_reply refused
          ∙ unfold recovery_reply in
            ap (λ (x : Db). (ok (html 410 (render_deletion_recovery_page [] (some used_link))), x))
              (sym same),
    )
