-- ===== src/Server/Http.antt =====
-- The HTTP server of the auth service (apps/auth/src/server.ts): what it reads of a request, what it
-- answers, and what it takes from Better Auth and the runtime.
pub mod Reading
use mathlib.Core.Option
use rsp_website.Prelude.{
  ℕ, ◌+◌, String, Bool, true, false, not, ◌||◌, Option, none, some, List, [], ◌∷◌, ◌++◌, ltb,
  if◌then◌else◌, length, codes, Text, text_eq, every, leb, ◌==◌, ◌&&◌,
}
use rsp_website.Security.AccessPolicy.{Moment}
use rsp_website.Security.Origin.{Url}
use rsp_website.Lifecycle.Store.{Db}
use rsp_website.Lifecycle.Tx.{Result, ok, err, Error, body_too_large, Tx}
use rsp_website.Lifecycle.Hooks.{Adapter, TokenPayload}
use rsp_website.Lifecycle.Library.{Write, apply_all}
use rsp_website.Server.InternalApi.{Reply, Body, Env, Method, get_method, post_method, other_method}

-- `z.object({ id, to, name, season, role, url })`
pub record Invitation : Type 0 where
  pub id : String
  pub to : String
  pub name : Text
  pub season : Text
  pub role : Text
  pub url : Text

-- What the server reads of a body that is JSON: the members that it asks for, where they are strings,
-- and the body as each schema reads it.
pub record Json : Type 0 where
  pub email : Option Text
  pub trust_device : Bool  -- `trustDevice === true`
  pub provider : Option Text
  pub code : Option Text
  pub password : Option Text
  pub invitation : Option Invitation
  pub body : Body

pub record HttpRequest : Type 0 where
  pub method : Text
  pub pathname : Option Text  -- none where `new URL` throws
  pub token_param : Option Text  -- `searchParams.get('token')`
  pub authorization : Option Text
  pub origin : Option String
  pub cookie : Option Text
  pub forwarded : Option Text  -- the header `config.ipAddressHeader`, if it is one string
  pub remote_address : Option Text
  pub chunks : List (List ℕ)
  pub received_at : ℕ

pub data HttpReply : Type 0 where
  answer : Reply → HttpReply
  live ready metrics : HttpReply
  -- 429 with `retry-after`, `x-ratelimit-limit` and `x-ratelimit-remaining`
  rate_limited : ℕ → ℕ → ℕ → HttpReply
  password_connected : HttpReply
  html : ℕ → Text → HttpReply
  -- 303 to the dashboard, with the cookies of the verification
  to_dashboard : List Text → HttpReply
  -- what Better Auth answers: the status and the cookies
  passed_on : ℕ → List Text → HttpReply

-- what the server reads of a response of Better Auth
pub record WebResponse : Type 0 where
  pub ok : Bool  -- a status of 200 to 299
  pub status : ℕ
  pub cookies : List Text
  -- `token`, or else `session.token`, of a JSON body, if it is a string
  pub json_token : Option Text

pub record AuthSession : Type 0 where
  pub user_id : String
  pub email : Text
  pub two_factor_enabled : Option Bool
  pub created_at : Moment

-- A request that Better Auth handles: the one that came, with the backup code that it carries, or the
-- verification that the step-up page asks for, of a backup code or not.
pub data HandlerCall : Type 0 where
  original : Option Text → HandlerCall
  verification : Bool → Text → HandlerCall

-- `auth.api.setPassword`: it writes, it throws an `APIError` with a status and a code, or another error
pub data PasswordOutcome : Type 0 where
  password_set : List Write → PasswordOutcome
  password_refused : ℕ → Option String → PasswordOutcome
  password_failed : PasswordOutcome

-- Better Auth, for the headers of one request.
pub record Library : Type 0 where
  pub adapter : Adapter
  pub parse_token : Text → Option TokenPayload
  pub get_session : Db → Option AuthSession
  pub set_password : Text → Db → PasswordOutcome
  pub writes : HandlerCall → Db → List Write
  pub respond : HandlerCall → Result (Unit {0}) → WebResponse

pub record HttpEnv : Type 0 where
  pub internal : Env
  pub base_url : Text
  pub parse_url : String → Option Url
  pub pathname_of : Text → Text  -- `new URL(url).pathname`
  pub decode_component : Text → Option Text  -- none where `decodeURIComponent` throws
  pub intern : Text → String  -- a text as a native string
  pub hmac : Text → Text → Text
  pub secret : Text
  pub trust_proxy_headers : Bool
  pub parse_json : List ℕ → Option Json
  pub form_field : List ℕ → Text → Option Text  -- `new URLSearchParams(body).get(field)`

-- `auth.handler`
unfoldable pub call_handler : Library → HandlerCall → Tx WebResponse
call_handler lib call db =
    let (r, after) = apply_all lib.adapter lib.parse_token (lib.writes call db) db in
    (ok (lib.respond call r), after)

unfoldable pub method_of : Text → Method
method_of m =
    if text_eq m (codes "GET")
    then get_method
    else if text_eq m (codes "POST")
    then post_method
    else other_method

abbrev pub max_body_bytes : ℕ
max_body_bytes = 1048576

-- the loop of `readBody`: the chunks so far, joined, and their size
unfoldable pub read_chunks : List (List ℕ) → List ℕ → ℕ → Result (List ℕ)
read_chunks [] body size = ok body
read_chunks (chunk ∷ chunks) body size =
    let rest = read_chunks chunks (body ++ chunk) (size + length chunk) in
    if ltb max_body_bytes (size + length chunk) then err body_too_large else rest

-- An absent body is the empty one: every use of it treats them alike.
unfoldable pub read_body : Text → List (List ℕ) → Result (List ℕ)
unfolding read_chunks
read_body method chunks =
    if text_eq method (codes "GET") || text_eq method (codes "HEAD")
    then ok []
    else read_chunks chunks [] 0

unfoldable pub parse_json_body : HttpEnv → List ℕ → Option Json
parse_json_body env [] = none
parse_json_body env (b ∷ bs) = env.parse_json (b ∷ bs)

-- `clientIp`
unfoldable pub remote_or_unknown : Option Text → Text
remote_or_unknown none = codes "unknown"
remote_or_unknown (some address) = address

unfoldable pub client_ip : HttpEnv → HttpRequest → Text
unfolding remote_or_unknown
client_ip env r = elim (r.forwarded) [
  | none ↦ remote_or_unknown r.remote_address
  | some address ↦
      if env.trust_proxy_headers && leb (length address) 128
      then address
      else remote_or_unknown r.remote_address
]
