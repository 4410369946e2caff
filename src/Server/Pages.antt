-- ===== src/Server/Pages.antt =====
-- The HTML pages that the auth service renders (apps/auth/src/lifecycle/browser.ts). Its `escapeHtml`
-- is line for line that of the email templates.
use rsp_website.Prelude.{Option, none, some, [], ◌∷◌, ◌++◌, codes, Text}
use rsp_website.Email.Templates.{escape_html}

abbrev pub deletion_request_path : Text
deletion_request_path = codes "/api/auth/account/deletion/request"

abbrev pub deletion_recovery_path : Text
deletion_recovery_path = codes "/api/auth/account/deletion/recovery"

abbrev pub step_up_path : Text
step_up_path = codes "/api/auth/mfa/step-up"

abbrev pub step_up_totp_path : Text
step_up_totp_path = codes "/api/auth/mfa/step-up/totp"

abbrev pub step_up_backup_path : Text
step_up_backup_path = codes "/api/auth/mfa/step-up/backup-code"

page_head : Text
page_head =
    codes
      "<!doctype html><html lang=\"en\"><head><meta charset=\"utf-8\"><meta name=\"viewport\" content=\"width=device-width,initial-scale=1\"><title>"

page_style : Text
page_style =
    codes
      " · RSP</title><style>body{font:1rem/1.5 system-ui,sans-serif;max-width:32rem;margin:4rem auto;padding:0 1rem;color:#20202a;background:#faf9ff}main{background:white;border:1px solid #d8d4e5;border-radius:1rem;padding:2rem}label{display:block;margin:1rem 0 .35rem}input{box-sizing:border-box;width:100%;font:inherit;padding:.7rem;border:1px solid #777;border-radius:.5rem}button{margin-top:1rem;font:inherit;font-weight:700;padding:.7rem 1rem;border:0;border-radius:.5rem;color:white;background:#6941c6}button:focus-visible,input:focus-visible{outline:3px solid #00a7c4;outline-offset:2px}.error{color:#a1122a}</style></head><body><main>"

pub page : Text → Text → Text
page title body =
    page_head ++ (escape_html title ++ (page_style ++ (body ++ codes "</main></body></html>")))

-- `error ? … : ''`; an empty message is none
pub alert : Option Text → Text
alert none = []
alert (some []) = []
alert (some (c ∷ cs)) =
    codes "<p class=\"error\" role=\"alert\">" ++ (escape_html (c ∷ cs) ++ codes "</p>")

pub recovery_intro : Text
recovery_intro =
    codes
      "<h1>Cancel account deletion</h1><p>Confirm that you want to keep your RSP account. This recovery link can be used once.</p>"

pub render_deletion_recovery_page : Text → Option Text → Text
unfolding page alert
render_deletion_recovery_page token message = page (codes "Recover account") (
    recovery_intro
    ++ (alert message
        ++ (codes "<form method=\"post\" action=\""
            ++ (deletion_recovery_path
                ++ (codes "\"><input type=\"hidden\" name=\"token\" value=\""
                    ++ (escape_html token
                        ++ codes "\"><button type=\"submit\">Keep my account</button></form>"))))))

pub render_deletion_recovered_page : Text
render_deletion_recovered_page = page (codes "Account recovered") (
    codes
      "<h1>Your account is active again</h1><p>The deletion request was cancelled. For security, sign in again to continue.</p><p><a href=\"/\">Return to RSP</a></p>")

step_up_intro : Text
step_up_intro =
    codes
      "<h1>Complete two-factor verification</h1><p>Your Google sign-in is waiting for a second factor. Enter an authenticator code or a one-time backup code.</p>"

totp_fields : Text
totp_fields =
    codes
      "\"><label for=\"totp\">Authenticator code</label><input id=\"totp\" name=\"code\" inputmode=\"numeric\" autocomplete=\"one-time-code\" required minlength=\"6\" maxlength=\"8\"><button type=\"submit\">Verify code</button></form>"

backup_fields : Text
backup_fields =
    codes
      "\"><label for=\"backup\">Backup code</label><input id=\"backup\" name=\"code\" autocomplete=\"one-time-code\" required minlength=\"8\" maxlength=\"128\"><button type=\"submit\">Use backup code</button></form>"

pub render_mfa_step_up_page : Option Text → Text
unfolding page alert
render_mfa_step_up_page message = page (codes "Two-factor verification") (
    step_up_intro
    ++ (alert message
        ++ (codes "<form method=\"post\" action=\""
            ++ (step_up_totp_path
                ++ (totp_fields
                    ++ (codes "<form method=\"post\" action=\""
                        ++ (step_up_backup_path ++ backup_fields)))))))
