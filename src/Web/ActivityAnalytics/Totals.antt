-- ===== src/Web/ActivityAnalytics/Totals.antt =====
-- What the figures on attempts add up to.
use rsp_website.Prelude.{
  ℕ, ◌+◌, ◌≤◌, ◌≡◌, refl, ◌∙◌, Bool, none, some, List, [], ◌∷◌, map, arith, All, ltb, length,
  select_rows,
}
use rsp_website.Web.ActivityAnalytics.{
  Difficulty, easy, medium, hard, Attempt, same_difficulty, DifficultyCount, count_of,
  difficulty_breakdown, is_success, success_rate, difficulty_success_rates,
}

abbrev pub total : List DifficultyCount → ℕ
total [] = 0
total (item ∷ items) = item.value + total items

total-nonzero :
    (items : List DifficultyCount)
    → total (select_rows (λ item. ltb 0 item.value) items) ≡ total items
unfolding select_rows
total-nonzero [] = refl
total-nonzero (item ∷ items) = ground (arith, total-nonzero items)

abbrev counts : List Attempt → ℕ
counts attempts =
    (count_of attempts (some easy)).value
    + ((count_of attempts (some medium)).value
        + ((count_of attempts (some hard)).value + (count_of attempts none).value))

counts_lem : (attempts : List Attempt) → counts attempts ≡ length attempts
unfolding count_of same_difficulty select_rows
counts_lem [] = ground arith
counts_lem (a ∷ attempts) = ground (arith, counts_lem attempts)

-- Every attempt is counted in the breakdown once: the values that are shown add up to the number of
-- attempts.
pub total-difficulty_breakdown :
    (attempts : List Attempt) → total (difficulty_breakdown attempts) ≡ length attempts
unfolding difficulty_breakdown
total-difficulty_breakdown attempts =
    total-nonzero (map (count_of attempts) (some easy ∷ some medium ∷ some hard ∷ none ∷ []))
    ∙ ground (arith, counts_lem attempts)

length-select_rows-le :
    {A : Type 0} (p : A → Bool) (xs : List A) → length (select_rows p xs) ≤ length xs
unfolding select_rows
length-select_rows-le p [] = omega arith
length-select_rows-le p (x ∷ xs) = ground (arith, length-select_rows-le p xs)

-- In no difficulty are there more successes than attempts.
pub difficulty_success_rates-le :
    (attempts : List Attempt) (goals : Difficulty → ℕ)
    → All (λ r. r.successes ≤ r.count) (difficulty_success_rates attempts goals)
unfolding difficulty_success_rates success_rate
difficulty_success_rates-le attempts goals = (
  length-select_rows-le (is_success (goals easy)) _,
  (
    length-select_rows-le (is_success (goals medium)) _,
    (length-select_rows-le (is_success (goals hard)) _, tt),
  ),
)
