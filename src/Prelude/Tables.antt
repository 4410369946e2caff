-- ===== src/Prelude/Tables.antt =====
-- A database table as the list of its rows, with the statements that the services send:
-- `SELECT … WHERE`, `UPDATE … SET … WHERE` and `DELETE … WHERE`, each over a Boolean test.
use mathlib.Core.Path.{◌≡◌, refl, subst}
use mathlib.Core.Bool.{Bool, true, false, not}
use mathlib.Core.Logic.{inl, inr}
use mathlib.Core.Option
use mathlib.Core.Option.{Option, none, some}
use mathlib.Core.List.{List, [], ◌∷◌}
use native.Mathlib.Omega.{arith}
use rsp_website.Prelude.Tests.{eq_of_some, if◌then◌else◌, Bool-cases}
use rsp_website.Prelude.Lists.{All}

module _ {ℓ} {A : Type ℓ} where
  -- the first row that passes the test
  unfoldable pub find_row : (A → Bool) → List A → Option A
  find_row p [] = none
  find_row p (x ∷ xs) = if p x then some x else find_row p xs

  unfoldable pub select_rows : (A → Bool) → List A → List A
  select_rows p [] = []
  select_rows p (x ∷ xs) = let rest = select_rows p xs in if p x then x ∷ rest else rest

  unfoldable pub update_rows : (A → Bool) → (A → A) → List A → List A
  update_rows p f [] = []
  update_rows p f (x ∷ xs) = (if p x then f x else x) ∷ update_rows p f xs

  unfoldable pub delete_rows : (A → Bool) → List A → List A
  unfolding select_rows
  delete_rows p xs = select_rows (λ x. not (p x)) xs

module _ {ℓ κ} {A : Type ℓ} (P : A → Type κ) where
  pub All-update_rows :
      (p : A → Bool) (f : A → A) (xs : List A)
      → ((x : A) → p x ≡ true → P x → P (f x))
      → All P xs
      → All P (update_rows p f xs)
  unfolding update_rows
  All-update_rows p f [] keep h = tt
  All-update_rows p f (x ∷ xs) keep (q, h) = elim (Bool-cases (p x)) [
    | inl e ↦ rw e (keep x e q, All-update_rows p f xs keep h)
    | inr e ↦ rw e (q, All-update_rows p f xs keep h)
  ]

  pub All-select_rows : (p : A → Bool) (xs : List A) → All P xs → All P (select_rows p xs)
  unfolding select_rows
  All-select_rows p [] h = tt
  All-select_rows p (x ∷ xs) (q, h) = elim (Bool-cases (p x)) [
    | inl e ↦ rw e (q, All-select_rows p xs h)
    | inr e ↦ rw e (All-select_rows p xs h)
  ]

  pub All-delete_rows : (p : A → Bool) (xs : List A) → All P xs → All P (delete_rows p xs)
  unfolding delete_rows
  All-delete_rows p xs h = All-select_rows (λ x. not (p x)) xs h

  pub find_row-All : (p : A → Bool) (xs : List A) (x : A) → find_row p xs ≡ some x → All P xs → P x
  unfolding find_row
  find_row-All p [] x e h = cc
  find_row-All p (y ∷ xs) x e (q, h) = elim (Bool-cases (p y)) [
    | inl t ↦ subst P (eq_of_some (rw t at e)) q
    | inr t ↦ find_row-All p xs x (rw t at e) h
  ]

module _ {ℓ} {A : Type ℓ} where
  -- A row that is found passes the test.
  pub find_row_sound : (p : A → Bool) (xs : List A) (x : A) → find_row p xs ≡ some x → p x ≡ true
  unfolding find_row
  find_row_sound p [] x e = cc
  find_row_sound p (y ∷ xs) x e = elim (Bool-cases (p y)) [
    | inl t ↦ subst (λ z. p z ≡ true) (eq_of_some (rw t at e)) t
    | inr t ↦ find_row_sound p xs x (rw t at e)
  ]

  pub All-selected : (p : A → Bool) (xs : List A) → All (λ x. p x ≡ true) (select_rows p xs)
  unfolding select_rows
  All-selected p [] = tt
  All-selected p (x ∷ xs) = elim (Bool-cases (p x)) [
    | inl e ↦ rw e (e, All-selected p xs)
    | inr e ↦ rw e (All-selected p xs)
  ]

  -- No row that is left passes the test.
  pub All-deleted : (p : A → Bool) (xs : List A) → All (λ x. p x ≡ false) (delete_rows p xs)
  unfolding delete_rows
  All-deleted p [] = unfold select_rows in tt
  All-deleted p (x ∷ xs) = elim (Bool-cases (p x)) [
    | inl e ↦ unfold select_rows in rw e (All-deleted p xs)
    | inr e ↦ unfold select_rows in rw e (e, All-deleted p xs)
  ]

  -- What an update leaves of the row that is looked up, where it keeps what the lookup tests.
  pub find_row-update_rows :
      (p q : A → Bool) (f : A → A) (xs : List A)
      → ((x : A) → q (f x) ≡ q x)
      → find_row q (update_rows p f xs) ≡ Option.map (λ x. if p x then f x else x) (find_row q xs)
  unfolding find_row update_rows
  find_row-update_rows p q f [] same = refl
  find_row-update_rows p q f (x ∷ xs) same =
      ground (arith, same x, find_row-update_rows p q f xs same)

  -- An update after which no row that it changed passes the test leaves none that does.
  pub select_rows-update_rows :
      (p : A → Bool) (f : A → A) (xs : List A)
      → ((x : A) → p x ≡ true → p (f x) ≡ false)
      → select_rows p (update_rows p f xs) ≡ []
  unfolding select_rows update_rows
  select_rows-update_rows p f [] off = refl
  select_rows-update_rows p f (x ∷ xs) off = elim (Bool-cases (p x)) [
    | inl e ↦ rw (e, off x e) (select_rows-update_rows p f xs off)
    | inr e ↦ rw (e, e) (select_rows-update_rows p f xs off)
  ]

  pub find_row-update_rows-none :
      (p : A → Bool) (f : A → A) (xs : List A)
      → ((x : A) → p x ≡ true → p (f x) ≡ false)
      → find_row p (update_rows p f xs) ≡ none
  unfolding find_row update_rows
  find_row-update_rows-none p f [] off = refl
  find_row-update_rows-none p f (x ∷ xs) off = elim (Bool-cases (p x)) [
    | inl e ↦ rw (e, off x e) (find_row-update_rows-none p f xs off)
    | inr e ↦ rw (e, e) (find_row-update_rows-none p f xs off)
  ]

  -- A narrower test finds the same row, where it passes that row.
  pub find_row_narrow :
      (p q : A → Bool) (xs : List A) (x : A)
      → ((y : A) → q y ≡ true → p y ≡ true)
      → find_row p xs ≡ some x
      → q x ≡ true
      → find_row q xs ≡ some x
  unfolding find_row
  find_row_narrow p q [] x sub e h = cc
  find_row_narrow p q (y ∷ ys) x sub e h = elim (Bool-cases (p y)) [
    | inl t ↦
        let same : y ≡ x = eq_of_some (rw t at e) in
        let passes : q y ≡ true = rw same h in rw (passes, same) refl
    | inr t ↦ elim (Bool-cases (q y)) [
      | inl s ↦ ground (arith, sub y s)
      | inr s ↦ rw s (find_row_narrow p q ys x sub (rw t at e) h)
    ]
  ]

module _ {ℓ κ μ} {A : Type ℓ} (P : A → Type κ) (Q : A → Type μ) where
  -- What every row has, the rows that are left have in the form that they need.
  pub All-left :
      (p : A → Bool) (xs : List A)
      → ((x : A) → p x ≡ false → P x → Q x)
      → All P xs
      → All Q (delete_rows p xs)
  unfolding delete_rows select_rows
  All-left p [] keep h = tt
  All-left p (x ∷ xs) keep (q, h) = elim (Bool-cases (p x)) [
    | inl e ↦ rw e (All-left p xs keep h)
    | inr e ↦ rw e (keep x e q, All-left p xs keep h)
  ]

  pub All-weaken : (xs : List A) → ((x : A) → P x → Q x) → All P xs → All Q xs
  All-weaken [] keep h = tt
  All-weaken (x ∷ xs) keep (q, h) = (keep x q, All-weaken xs keep h)

  -- What the rows that pass a test have, the rows that are selected have.
  pub All-selected_as :
      (p : A → Bool) (xs : List A)
      → ((x : A) → p x ≡ true → P x → Q x)
      → All P xs
      → All Q (select_rows p xs)
  unfolding select_rows
  All-selected_as p [] keep h = tt
  All-selected_as p (x ∷ xs) keep (q, h) = elim (Bool-cases (p x)) [
    | inl e ↦ rw e (keep x e q, All-selected_as p xs keep h)
    | inr e ↦ rw e (All-selected_as p xs keep h)
  ]
