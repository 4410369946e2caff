-- ===== src/Web/ActivityAnalytics.antt =====
-- The figures on attempts by difficulty (apps/web/src/activityAnalytics.ts).
pub mod Totals
use mathlib.Core.Option
use rsp_website.Prelude.{
  ℕ, ◌+◌, Bool, true, false, ◌&&◌, Option, none, some, List, [], ◌∷◌, map, ltb, leb, if◌then◌else◌,
  length, select_rows,
}

pub data Difficulty : Type 0 where
  easy medium hard : Difficulty

pub record Attempt : Type 0 where
  pub difficulty : Option Difficulty
  pub is_solved : Bool
  pub minutes : Option ℕ

same_difficulty : Option Difficulty → Option Difficulty → Bool
same_difficulty none none = true
same_difficulty (some easy) (some easy) = true
same_difficulty (some medium) (some medium) = true
same_difficulty (some hard) (some hard) = true
same_difficulty _ _ = false

-- the name is none for "Unknown"
pub record DifficultyCount : Type 0 where
  pub name : Option Difficulty
  pub value : ℕ

pub count_of : List Attempt → Option Difficulty → DifficultyCount
unfolding same_difficulty
count_of attempts name = record {
  name = name;
  value = length (select_rows (λ a. same_difficulty a.difficulty name) attempts);
}

pub difficulty_breakdown : List Attempt → List DifficultyCount
unfolding count_of
difficulty_breakdown attempts =
    select_rows (λ item. ltb 0 item.value)
      (map (count_of attempts) (some easy ∷ some medium ∷ some hard ∷ none ∷ []))

pub record SuccessRate : Type 0 where
  pub difficulty : Difficulty
  pub count : ℕ
  pub successes : ℕ

within : Option ℕ → ℕ → Bool
within none goal = false
within (some m) goal = leb m goal

pub is_success : ℕ → Attempt → Bool
unfolding within
is_success goal a = a.is_solved && within a.minutes goal

pub success_rate : List Attempt → (Difficulty → ℕ) → Difficulty → SuccessRate
unfolding same_difficulty is_success
success_rate attempts goals d =
    let matching = select_rows (λ a. same_difficulty a.difficulty (some d)) attempts in
    record {
      difficulty = d;
      count = length matching;
      successes = length (select_rows (is_success (goals d)) matching);
    }

pub difficulty_success_rates : List Attempt → (Difficulty → ℕ) → List SuccessRate
unfolding success_rate
difficulty_success_rates attempts goals =
    map (success_rate attempts goals) (easy ∷ medium ∷ hard ∷ [])
