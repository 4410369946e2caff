-- ===== src/Server/Requests/Limits.antt =====
-- The rate limit in front of the endpoints below `/api/auth/` (apps/auth/src/server.ts).
use mathlib.Core.Path.{subst}
use rsp_website.Prelude.{
  ℕ, ◌+◌, ◌-◌, ◌/◌, ◌≤◌, ◌<◌, max, ◌≡◌, refl, ◌∙◌, ap, sym, String, false, some, List, [], ◌∷◌,
  ◌++◌, arith, codes, Text, map, leb,
}
use rsp_website.Security.Origin.{OriginDecision, allowed, refused}
use rsp_website.Security.RateLimit.{
  RateLimitPolicy, RateLimitResult, Counter, Counters, get_counter, consume, result_of,
  current_counter, count_request, retry_after,
}
use rsp_website.Security.RateLimit.Counters.{
  alive, HasDistinctKeys, consume-HasDistinctKeys, result_of-alive,
}
use rsp_website.Security.RateLimit.Windows.{still_alive, own_step}
use rsp_website.Security.RateKey.{auth_rate_limit_policy}
use rsp_website.Lifecycle.Store.{Db}
use rsp_website.Lifecycle.Tx.{Result, ok, err, Tx}
use rsp_website.Server.InternalApi.{Draws, problem}
use rsp_website.Server.Http.{
  HttpRequest, HttpReply, answer, rate_limited, Library, HttpEnv, read_body,
}
use rsp_website.Server.Requests.{
  Server, check_origin_then, origin_decision, handle_admitted, handle_auth, handle_read,
  if_admitted, rate_key, or_internal_error, handle_request,
}
use rsp_website.Server.Requests.Checks.{handle_request_read, handle_body_auth}

-- The window of the key is open until `ends`, and as many requests as may pass are counted in it.
abbrev pub IsSpent : String → RateLimitPolicy → ℕ → ℕ → Counters → Type 0
IsSpent k policy ends now m =
    HasDistinctKeys m
    × ((c : Counter) × (alive now (get_counter k m) ≡ some c)
        × (c.reset_at_ms ≡ ends)
        × (policy.max_requests ≤ c.count))

-- A request of such a key is refused, with what is left of the window in whole seconds, and the key
-- stays as it is.
IsSpent-step :
    (k : String) (policy : RateLimitPolicy) (ends now t : ℕ) (m : Counters)
    → IsSpent k policy ends now m
    → now ≤ t
    → t < ends
    → let (result, m') = consume k policy t m in
      (result.allowed ≡ false)
      × (result.retry_after_seconds ≡ max 1 ((ends - t + 999) / 1000))
      × (result.limit ≡ policy.max_requests)
      × (result.remaining ≡ 0)
      × IsSpent k policy ends t m'
unfolding result_of current_counter count_request retry_after
IsSpent-step k policy ends now t m (distinct, (c, e, reset, full)) later soon =
    let open_still = still_alive (get_counter k m) now t c e later (ground (arith, reset, soon)) in
    let (ok_, next) = own_step k policy t m c distinct open_still (ground (arith, reset, soon)) in
    let late : leb c.reset_at_ms t ≡ false = ground (arith, reset, soon) in
    let found : (consume k policy t m).0 ≡ result_of (record c { count = c.count + 1 }) policy t =
      result_of-alive k policy t m ∙ rw (open_still, late) refl in
    (
      ok_ ∙ ground (arith, full),
      ap (λ (x : RateLimitResult). x.retry_after_seconds) found
          ∙ ap (λ n. max 1 ((n - t + 999) / 1000)) reset,
      ap (λ (x : RateLimitResult). x.limit) found,
      ap (λ (x : RateLimitResult). x.remaining) found ∙ omega arith,
      (
        consume-HasDistinctKeys k policy t m distinct,
        (record c { count = c.count + 1 }, next, reset, omega arith),
      ),
    )

over_limit :
    (p : RateLimitResult × Counters) (next : Tx HttpReply) (db : Db)
    → p.0.allowed ≡ false
    → or_internal_error (if_admitted p next db) ≡ (
      rate_limited p.0.retry_after_seconds p.0.limit p.0.remaining,
      record { db = db; counters = p.1 },
    )
unfolding if_admitted or_internal_error
over_limit (result, counters) next db over = rw over refl

-- A request, with the path below `/api/auth/`, what it draws, and how the library behaves in it.
pub record Arrival : Type 0 where
  pub request : HttpRequest
  pub tail : Text
  pub draws : Draws
  pub library : Library

-- the requests one after the other, with their answers
abbrev pub serve : HttpEnv → List Arrival → Server → List HttpReply × Server
serve env [] s = ([], s)
serve env (a ∷ rest) s =
    let (reply, s') = handle_request env a.library a.request a.draws s in
    let (replies, last) = serve env rest s' in (reply ∷ replies, last)

-- The answer without an endpoint: 500 to a body that is too large, 403 to a refused origin, and to
-- all else 429, with the seconds until the window ends.
abbrev pub reply_for : Result (List ℕ) → OriginDecision → ℕ → RateLimitPolicy → HttpReply
reply_for (err e) origin left policy = answer (problem 500 "internal_error")
reply_for (ok body) (refused reason) left policy = answer (problem 403 "untrusted_origin")
reply_for (ok body) (allowed origin) left policy =
    rate_limited (max 1 ((left + 999) / 1000)) policy.max_requests 0

abbrev pub turned_away : HttpEnv → RateLimitPolicy → ℕ → Arrival → HttpReply
turned_away env policy ends a =
    reply_for (read_body a.request.method a.request.chunks) (origin_decision env a.request)
      (ends - a.request.received_at) policy

-- The request is below `/api/auth/`, of the key and its policy, and comes before the window ends.
abbrev pub IsOwn : HttpEnv → String → RateLimitPolicy → ℕ → Arrival → Type 0
IsOwn env k policy ends a =
    (a.request.pathname ≡ some (codes "/api/auth/" ++ a.tail))
    × (auth_rate_limit_policy (codes "/api/auth/" ++ a.tail) ≡ policy)
    × ((body : List ℕ)
        → read_body a.request.method a.request.chunks ≡ ok body
        → rate_key env a.request (codes "/api/auth/" ++ a.tail) body ≡ k)
    × (a.request.received_at < ends)

-- The clock never goes back.
abbrev pub AreOwn : HttpEnv → String → RateLimitPolicy → ℕ → ℕ → List Arrival → Type 0
AreOwn env k policy ends now [] = Unit
AreOwn env k policy ends now (a ∷ rest) =
    (now ≤ a.request.received_at)
    × IsOwn env k policy ends a
    × AreOwn env k policy ends a.request.received_at rest

module _ (env : HttpEnv) (k : String) (policy : RateLimitPolicy) (ends : ℕ) where
  -- The answer is as given, no table has changed, and the key is still spent.
  abbrev IsTurnedAway : Server → ℕ → HttpReply → HttpReply × Server → Type 0
  IsTurnedAway s t reply (given, after) =
      (given ≡ reply) × (after.db ≡ s.db) × IsSpent k policy ends t after.counters

  module _ (a : Arrival) (s : Server) (now : ℕ) (spent : IsSpent k policy ends now s.counters)
      (later : now ≤ a.request.received_at) (own : IsOwn env k policy ends a) where
    still-IsSpent : IsSpent k policy ends a.request.received_at s.counters
    still-IsSpent =
        let (distinct, (c, e, reset, full)) = spent in
        let (named, pol, key, soon) = own in
        (
          distinct,
          (
            c,
            still_alive (get_counter k s.counters) now a.request.received_at c e later
                (ground (arith, reset, soon)),
            reset,
            full,
          ),
        )

    at_origin :
        (body : List ℕ) (o : OriginDecision) (next : Tx HttpReply)
        → IsTurnedAway s a.request.received_at
            (reply_for (ok body) o (ends - a.request.received_at) policy)
            (or_internal_error (
              check_origin_then o
                (λ x. if_admitted (consume k policy a.request.received_at x.counters) next x.db)
                s))
    unfolding check_origin_then
    at_origin body (refused reason) next = unfold or_internal_error in (refl, refl, still-IsSpent)
    at_origin body (allowed origin) next =
        let (named, pol, key, soon) = own in
        let (over, retry, limit, remaining, still) =
          IsSpent-step k policy ends now a.request.received_at s.counters spent later soon in
        subst
          (IsTurnedAway s a.request.received_at
            (reply_for (ok body) (allowed origin) (ends - a.request.received_at) policy))
          (sym (over_limit (consume k policy a.request.received_at s.counters) next s.db over))
          (λ i. rate_limited (retry i) (limit i) (remaining i), refl, still)

    abbrev full : Text
    full = codes "/api/auth/" ++ a.tail

    at_auth :
        (body : List ℕ)
        → read_body a.request.method a.request.chunks ≡ ok body
        → IsTurnedAway s a.request.received_at
            (reply_for
              (ok body)
              (origin_decision env a.request)
              (ends - a.request.received_at)
              policy)
            (or_internal_error (handle_auth env a.library a.request full body a.draws s))
    unfolding handle_auth
    at_auth body e =
        let (named, pol, key, soon) = own in
        subst
          (λ (q : String × RateLimitPolicy).
            IsTurnedAway s a.request.received_at
              (reply_for (ok body) (origin_decision env a.request) (ends - a.request.received_at)
                policy)
              (or_internal_error (
                check_origin_then (origin_decision env a.request)
                  (λ x.
                    if_admitted (consume q.0 q.1 a.request.received_at x.counters)
                      (handle_admitted env a.library a.request full body a.draws) x.db)
                  s)))
          (λ i. (sym (key body e) i, sym pol i)) (at_origin body (origin_decision env a.request) _)

    at_read :
        (b : Result (List ℕ))
        → read_body a.request.method a.request.chunks ≡ b
        → IsTurnedAway s a.request.received_at
            (reply_for b (origin_decision env a.request) (ends - a.request.received_at) policy)
            (or_internal_error (handle_read env a.library a.request full a.draws b s))
    unfolding handle_read
    at_read (err x) e = unfold or_internal_error in (refl, refl, still-IsSpent)
    at_read (ok body) e =
        subst
          (λ p.
            IsTurnedAway s a.request.received_at
              (reply_for (ok body) (origin_decision env a.request) (ends - a.request.received_at)
                policy)
              (or_internal_error p))
          (sym (handle_body_auth env a.library a.request a.draws s a.tail body)) (at_auth body e)

    turned_away_once :
        IsTurnedAway s a.request.received_at
          (turned_away env policy ends a)
          (handle_request env a.library a.request a.draws s)
    turned_away_once =
        subst (IsTurnedAway s a.request.received_at (turned_away env policy ends a))
          (sym (handle_request_read env a.library a.request a.draws s a.tail own.0))
          (at_read (read_body a.request.method a.request.chunks) refl)

  -- Once as many requests of a key have been counted as may pass in its window, no further request of
  -- that key below `/api/auth/` changes any table until the window ends, however many come: those with
  -- a body that is too large are answered 500, those of a refused origin 403, and all others 429, with
  -- the seconds until the window ends, at least one. The counters hold one entry for each key, and the
  -- clock does not go back.
  pub rate_limited_refused :
      (arrivals : List Arrival) (now : ℕ) (s : Server)
      → IsSpent k policy ends now s.counters
      → AreOwn env k policy ends now arrivals
      → ((serve env arrivals s).0 ≡ map (turned_away env policy ends) arrivals)
        × ((serve env arrivals s).1.db ≡ s.db)
  rate_limited_refused [] now s spent own = (refl, refl)
  rate_limited_refused (a ∷ rest) now s spent (later, own, others) =
      let (given, same, still) = turned_away_once a s now spent later own in
      let (replies, kept) =
        rate_limited_refused rest a.request.received_at
          (handle_request env a.library a.request a.draws s).1 still others in
      (λ i. given i ∷ replies i, kept ∙ same)
