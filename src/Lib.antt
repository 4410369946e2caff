-- ===== src/Lib.antt =====
-- A model of the RSP website's own logic, with the theorems that make it correct. The repository
-- holds an authentication service (apps/auth), a web application (apps/web) and a backend in Go
-- (backend); this library is about the TypeScript, and first about the authentication service.
--
-- Parts and files:
-- - Security: the pure policies of apps/auth/src/security. AccessPolicy (access-policy.ts), Linking
--   (linking-policy.ts), Origin (origin.ts), ServiceToken (internal-auth.ts), RateLimit and RateKey
--   (rate-limit.ts), BackupCodes (backup-code-store.ts).
-- - Email/Templates: the messages of apps/auth/src/email/templates.ts.
-- - Lifecycle: accounts and the durable outbox. Policy is apps/auth/src/lifecycle/policy.ts; Store has
--   the tables; Tx has statements, errors and transactions; Outbox, Statements, Service, Deletion and
--   Erasure are the methods of AccountLifecycleService in apps/auth/src/lifecycle/service.ts, one
--   function for each method, with the transaction of a method as a function of its own (`_tx`).
-- - Lifecycle/Hooks: the hooks and callbacks of apps/auth/src/auth.ts; Lifecycle/Library: what Better
--   Auth writes in one request, with those hooks in their places.
-- - Lifecycle/Machine: the abstract state machine of an account (`Transition`, `AccountStep`), the
--   effects that an operation may have on accounts and sessions (`Effect`) and, in the child modules,
--   the effect of each operation, hook and sweep.
-- - Server: apps/auth/src/server.ts. InternalApi is the API that the backend calls
--   (`internalUserRoute` and `handleInternal`); Http has what is read of a request; Endpoints is
--   `handleBrowserExtension`, one function for each path, with its pages in Pages
--   (apps/auth/src/lifecycle/browser.ts); Requests is `handleRequest`, one function for each of its
--   guards, from the last to the first; Sweeps has the two timers; System is the running service as a
--   step relation; Config has the checks and the result of `loadConfig` (apps/auth/src/config.ts).
-- - Web: ActivityFilters (apps/web/src/activityFilters.ts), StudentLevels (studentLevels.ts),
--   ActivityAnalytics (activityAnalytics.ts) and MondayMarks (mondayMarks.ts).
-- - Prelude: tests, lists, tables, texts and sorting, shared by all.
-- - Tests: the theorems at concrete inputs.
--
-- How the state is modelled. The database is a record of tables, and a table is the list of its rows;
-- an operation takes the database and returns a value or an error, and the database afterwards. What
-- a throw leaves behind in a transaction is rolled back. Operations run one at a time. For
-- one account the row locks of the lifecycle service have it so; the hook that looks at the state of an
-- account before the library stores a session takes no lock, and model and code differ there. The constraints of the schema that an operation can meet
-- are tests that make it fail. Clocks, random IDs and tokens, and how each delivery goes, are
-- arguments: a call of the email provider or of the API succeeds, throws, or throws without even the
-- failure being recorded. Instants are milliseconds, and texts are lists of code units where the code
-- looks into them. Subtractions of instants are written so that nothing is cut off at 0.
--
-- Better Auth is a parameter: for each request it gives the session of the request's cookie, any list
-- of its own writes (`Write`), and its response; the hooks run inside those writes. Its adapter is
-- assumed to delete the session with the token that it is given where it does not throw, and to write
-- verification values without touching accounts and sessions (`IsAdapter`). Requests and sweeps run one after the other in
-- the step relation; `Server` has the tables and the counters of the limiter.
--
-- Loops are structural recursion on the rows, chunks or requests. The `do … while` loops of the sweeps
-- take fuel, one for each round: a round that goes on has erased fifty accounts, or delivered fifty
-- rows, so that more fuel than a fiftieth of the accounts that wait for their deletion, or more than
-- there are undelivered rows, is enough.
--
-- Parameters: SHA-256, scrypt, HMAC, base64url, JSON, URL parsing, percent-decoding, the schemas of
-- zod, the signed link of an email change and, there, case folding. Elsewhere case folding is that of
-- ASCII, which leaves other letters as they are.
--
-- Not modelled: request IDs, headers and the titles of problems, the options of
-- Better Auth beside its hooks, requests that interleave at their awaits, delivery by SMTP and HTTP,
-- logs and metrics, the pages and queries of the web application, the backend in Go, migrations and
-- deployment.
pub mod Prelude
pub mod Security
pub mod Email
pub mod Lifecycle
pub mod Server
pub mod Web
pub mod Tests
