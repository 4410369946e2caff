-- ===== src/Server/Requests/Freshness.antt =====
-- The endpoints that ask for a fresh session (apps/auth/src/server.ts).
use rsp_website.Prelude.{ℕ, ◌+◌, ◌<◌, ◌≡◌, ◌⊎◌, Option, none, some, List, [], ◌∷◌, codes, Text}
use rsp_website.Security.AccessPolicy.{invalid, at_ms}
use rsp_website.Server.Http.{AuthSession}
use rsp_website.Server.Requests.{Server}

-- The endpoints that ask for a session of the last five minutes.
abbrev pub sensitive_tails : List Text
sensitive_tails =
    codes "two-factor/enable"
    ∷ codes "two-factor/disable"
    ∷ codes "two-factor/generate-backup-codes"
    ∷ codes "link-social"
    ∷ codes "connect-password"
    ∷ codes "account/deletion/request"
    ∷ []

-- The session is dated ahead or more than five minutes old, its date is invalid, or there is none.
abbrev pub IsStale : ℕ → Option AuthSession → Type 0
IsStale now none = Unit
IsStale now (some session) =
    (session.created_at ≡ invalid)
    ⊎ ((t : ℕ) × (session.created_at ≡ at_ms t) × ((now < t) ⊎ (t + 300000 < now)))
