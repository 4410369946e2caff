-- ===== src/Tests/Http.antt =====
-- The theorems on the HTTP server, the sweeps and the whole service at concrete requests.
use rsp_website.Prelude.{
  ℕ, ◌+◌, ◌≤◌, ◌≡◌, refl, String, true, false, none, some, List, [], ◌∷◌, arith, codes, str_eq,
  find_row, delete_rows, select_rows, leb, length, if◌then◌else◌,
}
use rsp_website.Security.Origin.{
  evaluate_browser_origin, is_state_changing_method, check_header, check_origin, header_origin,
}
use rsp_website.Security.RateLimit.{RateLimitPolicy, get_counter}
use rsp_website.Security.RateKey.{
  auth_rate_limit_policy, auth_path, per_minute, is_five_per_minute, five_per_minute_paths,
  after_prefix, slash_if_empty,
}
use rsp_website.Prelude.Texts.{
  strip_prefix, to_upper, upper_code, text_ne, trim, drop_spaces, is_space,
}
use rsp_website.Lifecycle.Store.{Db, User, email}
use rsp_website.Lifecycle.Tx.{ok, err, body_too_large}
use rsp_website.Lifecycle.Outbox.{accepted, new_row, has_row}
use rsp_website.Lifecycle.Statements.{find_user}
use rsp_website.Lifecycle.Erasure.{Draw, pseudonymize_due}
use rsp_website.Lifecycle.Library.{create_session}
use rsp_website.Lifecycle.Machine.{IsValidRow}
use rsp_website.Lifecycle.Machine.Updates.{IsLater}
use rsp_website.Lifecycle.Machine.Effects.{HasActiveOwners, Evolutions}
use rsp_website.Lifecycle.Machine.Hooks.{IsAdapter}
use rsp_website.Server.InternalApi.{problem, post_method}
use rsp_website.Server.Http.{
  HttpRequest, HttpEnv, Library, password_failed, answer, rate_limited, html, read_body,
  read_chunks, max_body_bytes,
}
use mathlib.Core.Option
use rsp_website.Lifecycle.Policy.{is_deletion_recoverable}
use rsp_website.Lifecycle.Deletion.{
  mark_active, is_token, is_token_code, find_recovery, can_recover,
}
use rsp_website.Server.Pages.{render_deletion_recovery_page}
use rsp_website.Server.Http.Reading.{joined, read_body_lem}
use rsp_website.Server.Endpoints.{form_field, used_link, recovery_endpoint}
use rsp_website.Server.Endpoints.Recovery.{recovery_endpoint-is_single_use}
use rsp_website.Server.Requests.{Server, handle_request, origin_decision, rate_key}
use rsp_website.Server.Requests.Origins.{untrusted_origin_refused}
use rsp_website.Server.Requests.Limits.{Arrival, serve, rate_limited_refused}
use rsp_website.Server.Sweeps.{
  DeletionDraws, DeliveryDraws, run_deletion_sweep, run_outbox_delivery,
}
use rsp_website.Server.Sweeps.Progress.{pending_count, reported, pseudonymize_due_progress}
use rsp_website.Server.Sweeps.Termination.{run_deletion_sweep-ends, run_outbox_delivery-ends}
use rsp_website.Server.System.{requested, start, next}
use rsp_website.Server.System.Invariants.{
  Step-Evolutions, Reach-HasActiveOwners, Reach-IsValidRow, Reach-IsLater,
}
use rsp_website.Tests.Samples.{bob, bob_token, token_text, sample_db, session_for}
use rsp_website.Tests.Server.{env, draws}

abbrev http_env : HttpEnv
http_env = record {
  internal = env;
  base_url = codes "https://rsp.example";
  parse_url = λ u. some (record { origin = "key"; username = ""; password = "" });
  pathname_of = λ u. u;
  decode_component = λ t. some t;
  intern = λ t. "key";
  hmac = λ value secret. value;
  secret = codes "secret";
  trust_proxy_headers = false;
  parse_json = λ body. none;
  form_field = λ body field. none;
}

-- Better Auth signs Ada in.
abbrev library : Library
library = record {
  adapter = record {
    delete_session = λ token db.
        (ok tt, record db { sessions = delete_rows (λ s. str_eq s.token token) db.sessions });
    create_verification = λ id value until db. (ok tt, db);
  };
  parse_token = λ t. none;
  get_session = λ db. none;
  set_password = λ password db. password_failed;
  writes = λ call db. create_session none 50 (session_for "s4" "ada") ∷ [];
  respond = λ call r. record { ok = true; status = 200; cookies = []; json_token = none };
}

library-IsAdapter : IsAdapter library.adapter
library-IsAdapter = record {
  delete_users = λ token db. refl;
  delete_session = λ token db. refl;
  create_users = λ id value until db. refl;
  create_sessions = λ id value until db. refl;
}

abbrev sign_in : HttpRequest
sign_in = record {
  method = codes "POST";
  pathname = some (codes "/api/auth/sign-in/email");
  token_param = none;
  authorization = none;
  origin = some "key";
  cookie = none;
  forwarded = none;
  remote_address = none;
  chunks = [];
  received_at = 50;
}

abbrev foreign : HttpRequest
foreign = record sign_in { origin = none }

abbrev disable : HttpRequest
disable = record sign_in { pathname = some (codes "/api/auth/two-factor/disable") }

abbrev server : Server
server = record {
  db = record sample_db { sessions = session_for "s1" "ada" ∷ session_for "s3" "ada" ∷ [] };
  counters = ("key", record { count = 5; reset_at_ms = 60000 }) ∷ [];
}

Reach-HasActiveOwners_example :
    HasActiveOwners (handle_request http_env library sign_in draws server).1.db
unfolding find_user find_row
Reach-HasActiveOwners_example =
    Reach-HasActiveOwners server (handle_request http_env library sign_in draws server).1
      (next (start refl) (requested http_env library sign_in draws library-IsAdapter refl))
      (refl, (refl, tt))

Step-Evolutions_example :
    Evolutions
      (find_user "ada" server.db)
      (find_user "ada" (handle_request http_env library sign_in draws server).1.db)
Step-Evolutions_example =
    Step-Evolutions server (handle_request http_env library sign_in draws server).1 "ada"
      (requested http_env library sign_in draws library-IsAdapter refl)

Reach-IsValidRow_example :
    IsValidRow (find_user "bob" (handle_request http_env library sign_in draws server).1.db)
unfolding find_user find_row
Reach-IsValidRow_example =
    Reach-IsValidRow server (handle_request http_env library sign_in draws server).1 "bob"
      (next (start refl) (requested http_env library sign_in draws library-IsAdapter refl))
      (record { positive = omega arith; requested_iff = refl; deadline_iff = refl })

Reach-IsLater_example :
    (v : User) × (find_user "bob" (handle_request http_env library sign_in draws server).1.db
      ≡ some v)
    × IsLater bob v
unfolding find_user find_row
Reach-IsLater_example =
    Reach-IsLater server (handle_request http_env library sign_in draws server).1 "bob" bob
      (next (start refl) (requested http_env library sign_in draws library-IsAdapter refl)) refl

abbrev draw_for : ℕ → String → Draw
draw_for n id = record { event_id = "e1"; attempt = record { outcome = accepted; at = 2000 } }

abbrev deletions : DeletionDraws
deletions = record { at = λ n. 2000; draw = draw_for }

run_deletion_sweep-ends_example :
    (after : Db) × (run_deletion_sweep 1 deletions sample_db ≡ some after)
unfolding select_rows
run_deletion_sweep-ends_example = run_deletion_sweep-ends 1 deletions sample_db (omega arith)

pseudonymize_due_progress_example :
    reported (pseudonymize_due 50 (draw_for 0) 2000 sample_db).0
      + pending_count (pseudonymize_due 50 (draw_for 0) 2000 sample_db).1.users
    ≤ pending_count sample_db.users
pseudonymize_due_progress_example = pseudonymize_due_progress 50 2000 (draw_for 0) sample_db

abbrev waiting_db : Db
waiting_db = record sample_db {
  outbox =
      new_row "m1" (email (record { to = "ada@example.org"; subject = []; text = []; html = none }))
        0
      ∷ [];
}

abbrev deliveries : DeliveryDraws
deliveries = record { at = λ n. 2000; attempts = λ n id. record { outcome = accepted; at = 2000 } }

run_outbox_delivery-ends_example :
    (after : Db) × (run_outbox_delivery 2 deliveries waiting_db ≡ some after)
unfolding select_rows new_row
run_outbox_delivery-ends_example = run_outbox_delivery-ends 2 deliveries waiting_db (omega arith)

untrusted_origin_refused_example : handle_request http_env library foreign draws server ≡ (
  if leb (length (joined [])) 1048576
      then answer (problem 403 "untrusted_origin")
      else answer (problem 500 "internal_error"),
  server,
)
unfolding to_upper upper_code
untrusted_origin_refused_example =
    untrusted_origin_refused http_env library foreign draws server (codes "sign-in/email") refl
      (text_ne _ _ refl, text_ne _ _ refl, text_ne _ _ refl) (λ h. h)

abbrev arrival : HttpRequest → Arrival
arrival r = record { request = r; tail = codes "sign-in/email"; draws = draws; library = library }

abbrev sign_in_policy : RateLimitPolicy
sign_in_policy = auth_rate_limit_policy (codes "/api/auth/sign-in/email")

-- two more sign-ins, the second of a foreign origin
abbrev two_more : List Arrival
two_more = arrival sign_in ∷ arrival (record foreign { received_at = 59999 }) ∷ []

rate_limited_refused_example :
    ((serve http_env two_more server).0
      ≡ rate_limited 60 5 0 ∷ answer (problem 403 "untrusted_origin") ∷ [])
    × ((serve http_env two_more server).1.db ≡ server.db)
unfolding read_body read_chunks origin_decision evaluate_browser_origin is_state_changing_method
    check_header check_origin header_origin get_counter auth_rate_limit_policy auth_path per_minute
    is_five_per_minute five_per_minute_paths after_prefix slash_if_empty strip_prefix to_upper
    rate_key
rate_limited_refused_example =
    rate_limited_refused http_env "key" sign_in_policy 60000 two_more 0 server
      ((refl, tt), (record { count = 5; reset_at_ms = 60000 }, refl, refl, omega arith))
      (
        omega arith,
        (refl, refl, λ body e. refl, omega arith),
        (omega arith, (refl, refl, λ body e. refl, omega arith), tt),
      )

-- The form holds Bob's recovery token.
abbrev form_env : HttpEnv
form_env = record http_env { form_field = λ body field. some token_text }

recovery_endpoint-is_single_use_example :
    let after = (recovery_endpoint form_env sign_in (1 ∷ []) draws post_method sample_db).1 in
    (find_user "bob" after ≡ some (mark_active 50 bob))
    × (recovery_endpoint form_env foreign (1 ∷ []) draws post_method after
        ≡ (ok (html 410 (render_deletion_recovery_page [] (some used_link))), after))
unfolding form_field trim drop_spaces is_space is_token is_token_code find_recovery find_user
    can_recover find_row select_rows has_row is_deletion_recoverable Option.bind
recovery_endpoint-is_single_use_example =
    recovery_endpoint-is_single_use form_env sign_in foreign (1 ∷ []) draws draws sample_db
      bob_token bob refl refl refl refl refl

read_body_lem_example : read_body (codes "POST") ((1 ∷ 2 ∷ []) ∷ (3 ∷ []) ∷ []) ≡ (
    if leb (length (joined ((1 ∷ 2 ∷ []) ∷ (3 ∷ []) ∷ []))) max_body_bytes
    then ok (joined ((1 ∷ 2 ∷ []) ∷ (3 ∷ []) ∷ []))
    else err body_too_large)
read_body_lem_example = read_body_lem (codes "POST") ((1 ∷ 2 ∷ []) ∷ (3 ∷ []) ∷ []) refl
