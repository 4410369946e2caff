-- ===== src/Tests/Server.antt =====
-- The theorems on the internal API at concrete requests.
use rsp_website.Prelude.{◌≡◌, inl, refl, none, some, [], ◌∷◌, ◌++◌, arith, codes}
use rsp_website.Lifecycle.Tx.{ok}
use rsp_website.Server.InternalApi.{
  Env, Route, Request, Draws, Body, post_method, pseudonymize_action, deletion_cancel_action,
  problem, DeletionBody, EmailChange, handle_deletion, internal_user_route,
}
use rsp_website.Server.InternalApi.Guards.{
  name_of, handle_deletion_guarded, internal_user_route_of_path,
}
use rsp_website.Tests.Samples.{sample_db, call_at, hash_text, token_text}

abbrev pub env : Env
env = record {
  hash = hash_text;
  add_token = λ u t. u ++ t;
  iso = λ n. [];
  origin_of = λ u. codes "https://rsp.example";
  to_lower_case = λ s. s;
  db_lower = λ s. s;
  verify_link = λ a b. codes "https://rsp.example/verify";
  service_token = codes "secret";
  trusted_origins = codes "https://rsp.example" ∷ [];
}

abbrev pub draws : Draws
draws = record {
  call = call_at 50;
  token = token_text;
  token_id = "t2";
  email_id = "m1";
  email_attempt = record { outcome = rsp_website.Lifecycle.Outbox.accepted; at = 50 };
}

abbrev no_body : Body
no_body = record { email_change = none; revocation = none; state = none; deletion = none }

abbrev unsigned : Request
unsigned = record { method = post_method; authorization = none; body = no_body; received_at = 50 }

abbrev erase_bob : Route
erase_bob = record { auth_user_id = "bob"; action = pseudonymize_action }

abbrev early : DeletionBody
early = record { recovery_url = codes "https://rsp.example/keep"; recovery_deadline = 900 }

handle_deletion_guarded_example :
    handle_deletion env "ada" (some early) 50 draws sample_db
    ≡ (ok (problem 400 "invalid_recovery_deadline"), sample_db)
handle_deletion_guarded_example =
    handle_deletion_guarded env "ada" early 50 draws sample_db (inl (ground arith))

abbrev new_address : EmailChange
new_address = record { email = "lovelace@example.org"; delivery_id = "d1" }

internal_user_route_of_path_example :
    internal_user_route
      (λ t. some "bob")
      (codes "/internal/auth/users/" ++ (codes "bob" ++ b'/' ∷ name_of deletion_cancel_action))
    ≡ some (record { auth_user_id = "bob"; action = deletion_cancel_action })
internal_user_route_of_path_example =
    internal_user_route_of_path (λ t. some "bob") b'b' (codes "ob") "bob" deletion_cancel_action
      (refl, (refl, (refl, tt))) refl
