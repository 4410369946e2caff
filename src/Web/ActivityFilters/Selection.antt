-- ===== src/Web/ActivityFilters/Selection.antt =====
-- What the filters select.
use rsp_website.Prelude.{
  ℕ, ◌≤◌, ◌≢◌, ◌↔◌, ◌∙◌, Option, none, some, every, length, ltb, ◌&&◌, ◌≡◌, refl, ap, String, Bool,
  true, false, not, List, [], ◌∷◌, arith, All, Bool-cases, inl, inr, if◌then◌else◌, select_rows,
}
use rsp_website.Prelude.Tables.{All-selected}
use rsp_website.Web.ActivityFilters.{
  ActivityFilters, empty_activity_filters, Attempt, MockInterview, is_passing, interview_passed,
  admits_attempt, filter_practice, admits_mock, filter_mocks, same_bool,
}

kept_all :
    {A : Type 0} (p : A → Bool) (xs : List A) → ((x : A) → p x ≡ true) → select_rows p xs ≡ xs
unfolding select_rows
kept_all p [] h = refl
kept_all p (x ∷ xs) h = rw (h x, kept_all p xs h) refl

narrowed :
    {A : Type 0} (p : A → Bool) (xs : List A) → select_rows p (select_rows p xs) ≡ select_rows p xs
unfolding select_rows
narrowed p [] = refl
narrowed p (x ∷ xs) = elim (Bool-cases (p x)) [
  | inl e ↦ rw (e, e) (ap (λ ys. x ∷ ys) (narrowed p xs))
  | inr e ↦ rw e (narrowed p xs)
]

-- Without filters every attempt is shown; what is shown satisfies the filters; and filtering once
-- more changes nothing.
pub filter_practice_lem :
    (lower : String → String) (attempts : List Attempt) (f : ActivityFilters)
    → (filter_practice lower attempts empty_activity_filters ≡ attempts)
      × All (λ a. admits_attempt lower f a ≡ true) (filter_practice lower attempts f)
      × (filter_practice lower (filter_practice lower attempts f) f
          ≡ filter_practice lower attempts f)
unfolding filter_practice
filter_practice_lem lower attempts f = (
  kept_all (admits_attempt lower empty_activity_filters) attempts
      (λ a. unfold admits_attempt in refl),
  All-selected (admits_attempt lower f) attempts,
  narrowed (admits_attempt lower f) attempts,
)

admits_mock_passed :
    (m : MockInterview) (passed : Bool)
    → admits_mock (record empty_activity_filters { passed = if passed then "true" else "false" }) m
      ≡ (if passed then interview_passed m else not (interview_passed m))
unfolding admits_mock same_bool
admits_mock_passed m true = ground arith
admits_mock_passed m false = ground arith

-- The interview has a round, and each round has a score, of 5 at least.
abbrev pub IsPassed : MockInterview → Type 0
IsPassed m = (m.scores ≢ []) × All (λ o. (n : ℕ) × (o ≡ some n) × (5 ≤ n)) m.scores

is_passing_iff : (o : Option ℕ) → (is_passing o ≡ true) ↔ ((n : ℕ) × (o ≡ some n) × (5 ≤ n))
unfolding is_passing
is_passing_iff none = (λ h. cc, λ (n, e, le). cc)
is_passing_iff (some n) = (λ h. (n, refl, ground arith), λ (m, e, le). ground arith)

every-passing_iff :
    (os : List (Option ℕ))
    → (every is_passing os ≡ true) ↔ All (λ o. (n : ℕ) × (o ≡ some n) × (5 ≤ n)) os
every-passing_iff [] = (λ _. tt, λ _. refl)
every-passing_iff (o ∷ os) = ground (arith, is_passing_iff o, every-passing_iff os)

scores_iff :
    (os : List (Option ℕ))
    → (ltb 0 (length os) && every is_passing os ≡ true)
      ↔ ((os ≢ []) × All (λ o. (n : ℕ) × (o ≡ some n) × (5 ≤ n)) os)
scores_iff [] = (λ h. cc, λ (ne, all). absurd (ne refl))
scores_iff (o ∷ os) = (
  λ h. (λ e. cc, (every-passing_iff (o ∷ os)).0 (ground (arith, h))),
  λ (ne, all). let each = (every-passing_iff (o ∷ os)).1 all in ground (arith, each),
)

pub interview_passed_iff : (m : MockInterview) → (interview_passed m ≡ true) ↔ IsPassed m
unfolding interview_passed
interview_passed_iff m = scores_iff m.scores

same_test :
    (p : MockInterview → Bool) (m : MockInterview)
    → (p m ≡ true) ↔ IsPassed m
    → interview_passed m ≡ p m
same_test p m decides = ground (arith, decides, interview_passed_iff m)

-- With the filter on passed interviews alone, the interviews that are shown are, in their order,
-- those that have a round and a score of 5 at least in each, and with the filter on failed ones they
-- are the others, whatever test decides which have.
pub filter_mocks_passed :
    (p : MockInterview → Bool) (mocks : List MockInterview) (passed : Bool)
    → ((m : MockInterview) → (p m ≡ true) ↔ IsPassed m)
    → filter_mocks mocks
        (record empty_activity_filters { passed = if passed then "true" else "false" })
      ≡ select_rows (λ m. if passed then p m else not (p m)) mocks
unfolding filter_mocks
filter_mocks_passed p mocks passed decides i =
    select_rows
      (λ m.
        (admits_mock_passed m passed
            ∙ ap (λ b. if passed then b else not b) (same_test p m (decides m)))
          i)
      mocks
