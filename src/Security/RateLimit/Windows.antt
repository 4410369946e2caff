-- ===== src/Security/RateLimit/Windows.antt =====
-- How many requests of one key pass within one window, whatever the other keys do meanwhile.
use rsp_website.Prelude.{
  ℕ, ◌+◌, ◌-◌, ◌*◌, ◌≤◌, ◌<◌, min, ◌≡◌, refl, ◌∙◌, String, Bool, true, false, Option, none, some,
  List, [], ◌∷◌, arith, leb, str_eq, eq_iff, eq_refl, ◌&&◌, Bool-cases, inl, inr,
}
use rsp_website.Security.RateLimit.{
  RateLimitPolicy, Counter, Counters, get_counter, current_counter, count_request, result_of,
  consume,
}
use rsp_website.Security.RateLimit.Counters.{
  alive, HasDistinctKeys, result_of-alive, consume-HasDistinctKeys, alive-consume,
}

-- The requests at the limiter: the key of each and its time.
abbrev pub Requests : Type 0
Requests = List (String × ℕ)

-- The clock never goes back, and stays before `ends`.
abbrev pub IsWithinWindow : ℕ → ℕ → Requests → Type 0
IsWithinWindow now ends [] = Unit
IsWithinWindow now ends ((key, t) ∷ rs) = (now ≤ t) × (t < ends) × IsWithinWindow t ends rs

abbrev pub count_if : Bool → ℕ
count_if true = 1
count_if false = 0

-- how many of the requests are of the key
abbrev pub asked : String → Requests → ℕ
asked k [] = 0
asked k ((key, t) ∷ rs) = count_if (str_eq key k) + asked k rs

pub still_alive :
    (o : Option Counter) (now t : ℕ) (c : Counter)
    → alive now o ≡ some c
    → now ≤ t
    → t < c.reset_at_ms
    → alive t o ≡ some c
still_alive none now t c e h s = cc
still_alive (some d) now t c e h s = ground arith

-- A request of a key whose window is open.
pub own_step :
    (k : String) (policy : RateLimitPolicy) (t : ℕ) (m : Counters) (c : Counter)
    → HasDistinctKeys m
    → alive t (get_counter k m) ≡ some c
    → t < c.reset_at_ms
    → ((consume k policy t m).0.allowed ≡ leb (c.count + 1) policy.max_requests)
      × (alive t (get_counter k (consume k policy t m).1) ≡ some (record c { count = c.count + 1 }))
unfolding result_of current_counter count_request
own_step k policy t m c d e s = (
  rw (result_of-alive k policy t m, e) (ground arith),
  rw (alive-consume k k policy t t m d (omega arith), eq_refl k, e) (ground arith),
)

-- A request of a key that has no open window begins one.
first_step :
    (k : String) (policy : RateLimitPolicy) (t : ℕ) (m : Counters)
    → HasDistinctKeys m
    → alive t (get_counter k m) ≡ none
    → ((consume k policy t m).0.allowed ≡ leb 1 policy.max_requests)
      × (0 < policy.window_seconds
          → alive t (get_counter k (consume k policy t m).1)
            ≡ some (record { count = 1; reset_at_ms = t + policy.window_seconds * 1000 }))
unfolding result_of current_counter count_request
first_step k policy t m d e = (
  rw (result_of-alive k policy t m, e) (ground arith),
  λ pos. rw (alive-consume k k policy t t m d (omega arith), eq_refl k, e) (ground arith),
)

-- A request of another key.
other_step :
    (key k : String) (policy : RateLimitPolicy) (t : ℕ) (m : Counters)
    → HasDistinctKeys m
    → str_eq key k ≡ false
    → alive t (get_counter k (consume key policy t m).1) ≡ alive t (get_counter k m)
other_step key k policy t m d other =
    rw (alive-consume key k policy t t m d (omega arith), other) refl

module _ (policy_of : String → RateLimitPolicy) where
  -- how many requests of the key the limiter lets through
  abbrev pub passed : String → Requests → Counters → ℕ
  passed k [] m = 0
  passed k ((key, t) ∷ rs) m =
      let (r, m') = consume key (policy_of key) t m in
      count_if (str_eq key k && r.allowed) + passed k rs m'

  -- In a window that the key has begun, what is left of its allowance passes.
  passed_in_window :
      (k : String) (rs : Requests) (now : ℕ) (m : Counters) (c : Counter)
      → HasDistinctKeys m
      → alive now (get_counter k m) ≡ some c
      → IsWithinWindow now c.reset_at_ms rs
      → passed k rs m ≡ min (asked k rs) ((policy_of k).max_requests - c.count)
  passed_in_window k [] now m c d e w = omega arith
  passed_in_window k ((key, t) ∷ rs) now m c d e (later, soon, w) =
      let open_still = still_alive (get_counter k m) now t c e later soon in
      let m' = (consume key (policy_of key) t m).1 in
      let d' = consume-HasDistinctKeys key (policy_of key) t m d in
      elim (Bool-cases (str_eq key k)) [
        | inl own ↦
            let same : key ≡ k = (eq_iff key k).0 own in
            let (ok, next) = own_step k (policy_of k) t m c d open_still soon in
            rw (same, eq_refl k, ok)
              (ground (
                arith,
                passed_in_window k rs t (consume k (policy_of k) t m).1
                    (record c { count = c.count + 1 })
                    (consume-HasDistinctKeys k (policy_of k) t m d) next w,
              ))
        | inr other ↦
            let untouched = other_step key k (policy_of key) t m d other in
            rw other (omega (arith, passed_in_window k rs t m' c d' (untouched ∙ open_still) w))
      ]

  -- Once a key with no open window makes a request, then of all its requests before the window ends
  -- exactly as many pass as the policy allows, or all of them if they are fewer: whatever requests
  -- of other keys come between, and also when expired counters are pruned on the way.
  pub passed_per_window :
      (k : String) (t : ℕ) (rs : Requests) (m : Counters)
      → HasDistinctKeys m
      → alive t (get_counter k m) ≡ none
      → 0 < (policy_of k).window_seconds
      → IsWithinWindow t (t + (policy_of k).window_seconds * 1000) rs
      → passed k ((k, t) ∷ rs) m ≡ min (asked k ((k, t) ∷ rs)) (policy_of k).max_requests
  passed_per_window k t rs m d e pos w =
      let (ok, next) = first_step k (policy_of k) t m d e in
      rw (eq_refl k, ok)
        (ground (
          arith,
          passed_in_window k rs t (consume k (policy_of k) t m).1 _
              (consume-HasDistinctKeys k (policy_of k) t m d) (next pos) w,
        ))
