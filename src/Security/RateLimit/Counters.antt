-- ===== src/Security/RateLimit/Counters.antt =====
-- The map of counters as a function of the key: what a request sees, and what pruning hides.
use rsp_website.Prelude.{
  ℕ, ◌≤◌, ◌≡◌, refl, String, Option, none, some, [], ◌∷◌, arith, ltb, leb, if◌then◌else◌, str_eq,
  eq_iff, Bool-cases, inl, inr, length, Option-cases,
}
use rsp_website.Security.RateLimit.{
  RateLimitPolicy, Counter, Counters, get_counter, set_counter, prune, current_counter,
  count_request, consume, max_counters, result_of,
}

pub get_counter-set_counter :
    (k j : String) (c : Counter) (m : Counters)
    → get_counter j (set_counter k c m) ≡ (if str_eq k j then some c else get_counter j m)
unfolding get_counter set_counter
get_counter-set_counter k j c [] = refl
get_counter-set_counter k j c ((i, d) ∷ m) =
    ground (arith, eq_iff k j, eq_iff i k, eq_iff i j, get_counter-set_counter k j c m)

-- A counter that has not run out at the time `now`.
abbrev pub alive : ℕ → Option Counter → Option Counter
alive now none = none
alive now (some c) = if leb c.reset_at_ms now then none else some c

-- A map holds one entry for each key.
abbrev pub HasDistinctKeys : Counters → Type 0
HasDistinctKeys [] = Unit
HasDistinctKeys ((k, c) ∷ m) = (get_counter k m ≡ none) × HasDistinctKeys m

get_counter-prune :
    (now : ℕ) (j : String) (m : Counters)
    → HasDistinctKeys m
    → get_counter j (prune now m) ≡ alive now (get_counter j m)
unfolding get_counter prune
get_counter-prune now j [] h = refl
get_counter-prune now j ((i, d) ∷ m) h = ground (arith, eq_iff i j, get_counter-prune now j m h.1)

set_counter-HasDistinctKeys :
    (k : String) (c : Counter) (m : Counters)
    → HasDistinctKeys m
    → HasDistinctKeys (set_counter k c m)
unfolding set_counter get_counter
set_counter-HasDistinctKeys k c [] h = (refl, tt)
set_counter-HasDistinctKeys k c ((i, d) ∷ m) h = ground (
  arith,
  eq_iff i k,
  eq_iff k i,
  get_counter-set_counter k i c m,
  set_counter-HasDistinctKeys k c m h.1,
)

prune-HasDistinctKeys : (now : ℕ) (m : Counters) → HasDistinctKeys m → HasDistinctKeys (prune now m)
unfolding prune
prune-HasDistinctKeys now [] h = tt
prune-HasDistinctKeys now ((i, d) ∷ m) h =
    ground (arith, prune-HasDistinctKeys now m h.1, get_counter-prune now i m h.1)

-- The counter that a request leaves for its key.
abbrev pub next_counter : Option Counter → ℕ → RateLimitPolicy → Counter
next_counter o now policy = count_request (current_counter o now policy)

-- A request only sees its own live counter.
pub result_of-alive :
    (key : String) (policy : RateLimitPolicy) (now : ℕ) (m : Counters)
    → (consume key policy now m).0
      ≡ result_of (next_counter (alive now (get_counter key m)) now policy) policy now
unfolding consume current_counter
result_of-alive key policy now m = elim (Option-cases (get_counter key m)) [
  | inl e ↦ rw e refl
  | inr (c, e) ↦ rw e (ground arith)
]

alive_later :
    (now later : ℕ) (o : Option Counter) → now ≤ later → alive later (alive now o) ≡ alive later o
alive_later now later none h = refl
alive_later now later (some c) h = ground arith

stored_counter :
    (key j : String) (policy : RateLimitPolicy) (now later : ℕ) (m : Counters)
    → HasDistinctKeys m
    → now ≤ later
    → alive later (get_counter j (consume key policy now m).1)
      ≡ alive later
          (get_counter j (set_counter key (next_counter (get_counter key m) now policy) m))
unfolding consume
stored_counter key j policy now later m d h =
    let stored = set_counter key (next_counter (get_counter key m) now policy) m in
    elim (Bool-cases (ltb max_counters (length stored))) [
      | inl full ↦ rw full (
          rw (get_counter-prune now j stored (set_counter-HasDistinctKeys key _ m d))
            (alive_later now later (get_counter j stored) h))
      | inr room ↦ rw room refl
    ]

-- The limiter keeps one entry for each key, pruned or not.
pub consume-HasDistinctKeys :
    (key : String) (policy : RateLimitPolicy) (now : ℕ) (m : Counters)
    → HasDistinctKeys m
    → HasDistinctKeys (consume key policy now m).1
unfolding consume
consume-HasDistinctKeys key policy now m d =
    let c = next_counter (get_counter key m) now policy in
    let stored = set_counter key c m in
    let kept = set_counter-HasDistinctKeys key c m d in
    elim (Bool-cases (ltb max_counters (length stored))) [
      | inl full ↦ rw full (prune-HasDistinctKeys now stored kept)
      | inr room ↦ rw room kept
    ]

next_alive :
    (o : Option Counter) (now : ℕ) (policy : RateLimitPolicy)
    → next_counter o now policy ≡ next_counter (alive now o) now policy
unfolding current_counter
next_alive none now policy = refl
next_alive (some c) now policy = ground arith

-- Seen through live counters, a request advances the counter of its own key, as if the map were
-- never pruned, and leaves every other key as it was, at its time and at any later one.
pub alive-consume :
    (key j : String) (policy : RateLimitPolicy) (now later : ℕ) (m : Counters)
    → HasDistinctKeys m
    → now ≤ later
    → alive later (get_counter j (consume key policy now m).1) ≡ (
        if str_eq key j
        then alive later (some (next_counter (alive now (get_counter key m)) now policy))
        else alive later (get_counter j m))
alive-consume key j policy now later m d h =
    rw
      (
        stored_counter key j policy now later m d h,
        get_counter-set_counter key j (next_counter (get_counter key m) now policy) m,
        ← next_alive (get_counter key m) now policy,
      )
      (elim (Bool-cases (str_eq key j)) [ inl e ↦ rw e refl | inr e ↦ rw e refl ])
