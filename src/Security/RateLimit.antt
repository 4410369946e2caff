-- ===== src/Security/RateLimit.antt =====
-- apps/auth/src/security/rate-limit.ts: the fixed-window limiter, its policies and its keys.
-- The map is an association list in insertion order with one entry for each key; the clock is the
-- argument `now`, in milliseconds.
pub mod Counters
pub mod Windows
use rsp_website.Prelude.{
  ℕ, zero, ◌+◌, ◌-◌, ◌*◌, ◌/◌, max, String, Bool, true, false, not, Option, none, some, List, [],
  ◌∷◌, ltb, leb, if◌then◌else◌, str_eq, length, find_row, delete_rows,
}

pub record RateLimitPolicy : Type 0 where
  pub max_requests : ℕ
  pub window_seconds : ℕ

pub record RateLimitResult : Type 0 where
  pub allowed : Bool
  pub limit : ℕ
  pub remaining : ℕ
  pub retry_after_seconds : ℕ
  pub reset_at : ℕ

pub record Counter : Type 0 where
  pub count : ℕ
  pub reset_at_ms : ℕ

abbrev pub Counters : Type 0
Counters = List (String × Counter)

-- `Map.get` and `Map.set`; `set` keeps the place of a key that is there
unfoldable pub get_counter : String → Counters → Option Counter
get_counter k [] = none
get_counter k ((j, c) ∷ m) = if str_eq j k then some c else get_counter k m

unfoldable pub set_counter : String → Counter → Counters → Counters
set_counter k c [] = (k, c) ∷ []
set_counter k c ((j, d) ∷ m) = if str_eq j k then (j, c) ∷ m else (j, d) ∷ set_counter k c m

-- the expired counters leave the map
unfoldable pub prune : ℕ → Counters → Counters
prune now [] = []
prune now ((k, c) ∷ m) =
    let rest = prune now m in if leb c.reset_at_ms now then rest else (k, c) ∷ rest

abbrev fresh_counter : ℕ → RateLimitPolicy → Counter
fresh_counter now policy = record { count = 0; reset_at_ms = now + policy.window_seconds * 1000 }

-- the counter that a request finds, before it is counted
unfoldable pub current_counter : Option Counter → ℕ → RateLimitPolicy → Counter
current_counter none now policy = fresh_counter now policy
current_counter (some c) now policy = if leb c.reset_at_ms now then fresh_counter now policy else c

unfoldable pub count_request : Counter → Counter
count_request c = record c { count = c.count + 1 }

-- `Math.max(1, Math.ceil(ms / 1000))`; a counter in use ends after `now`
unfoldable pub retry_after : ℕ → ℕ → ℕ
retry_after reset now = max 1 ((reset - now + 999) / 1000)

unfoldable pub result_of : Counter → RateLimitPolicy → ℕ → RateLimitResult
result_of c policy now = record {
  allowed = leb c.count policy.max_requests;
  limit = policy.max_requests;
  remaining = policy.max_requests - c.count;
  retry_after_seconds = retry_after c.reset_at_ms now;
  reset_at = c.reset_at_ms;
}

abbrev max_counters : ℕ
max_counters = 10000

unfoldable pub consume : String → RateLimitPolicy → ℕ → Counters → RateLimitResult × Counters
consume key policy now m =
    let counter = count_request (current_counter (get_counter key m) now policy) in
    let stored = set_counter key counter m in
    (
      result_of counter policy now,
      if ltb max_counters (length stored) then prune now stored else stored,
    )

pub clear : Counters → Counters
clear m = []
