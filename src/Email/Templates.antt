-- ===== src/Email/Templates.antt =====
-- apps/auth/src/email/templates.ts. The ISO text of a deadline is an argument.
pub mod Escaping
use rsp_website.Prelude.{ℕ, String, Option, some, List, [], ◌∷◌, ◌++◌, if◌then◌else◌, codes, ◌==◌}
use rsp_website.Prelude.Texts.{Text}
use rsp_website.Lifecycle.Store.{EmailMessage}

-- `s.replaceAll(c, by)` for a single character
pub replace_all : ℕ → Text → Text → Text
replace_all c by [] = []
replace_all c by (d ∷ s) = let rest = replace_all c by s in if d == c then by ++ rest else d ∷ rest

abbrev pub amp : Text
amp = codes "&amp;"

abbrev pub lt : Text
lt = codes "&lt;"

abbrev pub gt : Text
gt = codes "&gt;"

abbrev pub quot : Text
quot = codes "&quot;"

abbrev pub apos : Text
apos = codes "&#39;"

-- '&' first, so that the entities stay as they are
pub escape_html : Text → Text
escape_html value =
    replace_all b'\'' apos (
      replace_all b'"' quot
        (replace_all b'>' gt (replace_all b'<' lt (replace_all b'&' amp value))))

pub record LinkEmail : Type 0 where
  pub to : String
  pub subject : Text
  pub introduction : Text
  pub action : Text
  pub url : Text
  pub expiry : Text

abbrev newlines : Text
newlines = 10 ∷ 10 ∷ []

pub link_email : LinkEmail → EmailMessage
unfolding escape_html
link_email o = record {
  to = o.to;
  subject = o.subject;
  text =
      o.introduction
      ++ (newlines ++ (o.action ++ (codes ": " ++ (o.url ++ (newlines ++ o.expiry)))));
  html = some (
      codes "<p>"
      ++ (escape_html o.introduction
          ++ (codes "</p><p><a href=\""
              ++ (escape_html o.url
                  ++ (codes "\">"
                      ++ (escape_html o.action
                          ++ (codes "</a></p><p>" ++ (escape_html o.expiry ++ codes "</p>"))))))));
}

pub verification_email : String → Text → EmailMessage
unfolding link_email
verification_email to url = link_email (record {
  to = to;
  subject = codes "Verify your RSP email";
  introduction = codes "Verify this email address before accessing RSP.";
  action = codes "Verify email";
  url = url;
  expiry =
      codes "This link expires in one hour. If you did not create an account, ignore this email.";
})

pub password_reset_email : String → Text → EmailMessage
unfolding link_email
password_reset_email to url = link_email (record {
  to = to;
  subject = codes "Reset your RSP password";
  introduction = codes "A password reset was requested for your RSP account.";
  action = codes "Reset password";
  url = url;
  expiry = codes "This link expires in one hour. If you did not request it, ignore this email.";
})

-- `deadline` is `recoveryDeadline.toISOString()`
pub deletion_recovery_email : String → Text → Text → EmailMessage
unfolding link_email
deletion_recovery_email to url deadline = link_email (record {
  to = to;
  subject = codes "Recover your RSP account";
  introduction = codes "Your RSP account is scheduled for deletion and all sessions were revoked.";
  action = codes "Cancel account deletion";
  url = url;
  expiry = codes "Recovery is available until " ++ (deadline ++ codes ".");
})

pub invitation_email : String → Text → Text → Text → Text → EmailMessage
unfolding link_email
invitation_email to name season role url = link_email (record {
  to = to;
  subject = codes "Your invitation to " ++ season;
  introduction =
      name
      ++ (codes ", you have been invited to join "
          ++ (season
              ++ (codes " as a "
                  ++ (role
                      ++ codes
                          ". Sign in or create an account using this email address, verify it, then accept your invitation."))));
  action = codes "Accept invitation";
  url = url;
  expiry = codes "This invitation expires in 7 days and can only be used once.";
})
