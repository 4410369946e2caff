-- ===== src/Prelude/Sorting.antt =====
-- `ORDER BY … LIMIT`: a stable insertion sort by a Boolean order, and what it keeps.
use mathlib.Core.Bool.{Bool}
use mathlib.Core.List.{List, [], ◌∷◌, Perm}
use mathlib.Core.List.Perm
use mathlib.Core.Logic.{inl, inr}
use rsp_website.Prelude.Tests.{if◌then◌else◌, Bool-cases}
use rsp_website.Prelude.Lists.{All}

module _ {ℓ} {A : Type ℓ} (before : A → A → Bool) where
  unfoldable pub insert_by : A → List A → List A
  insert_by x [] = x ∷ []
  insert_by x (y ∷ ys) = let rest = insert_by x ys in if before x y then x ∷ y ∷ ys else y ∷ rest

  unfoldable pub sort_by : List A → List A
  unfolding insert_by
  sort_by [] = []
  sort_by (x ∷ xs) = insert_by x (sort_by xs)

  pub insert_by-perm : (x : A) (ys : List A) → Perm (insert_by x ys) (x ∷ ys)
  unfolding insert_by
  insert_by-perm x [] = Perm.refl (x ∷ [])
  insert_by-perm x (y ∷ ys) = elim (Bool-cases (before x y)) [
    | inl h ↦ rw h (Perm.refl (x ∷ y ∷ ys))
    | inr h ↦ rw h (Perm.trans (Perm.cons y (insert_by-perm x ys)) (Perm.swap x y ys))
  ]

  pub sort_by-perm : (xs : List A) → Perm (sort_by xs) xs
  unfolding sort_by
  sort_by-perm [] = Perm.refl []
  sort_by-perm (x ∷ xs) = Perm.trans (insert_by-perm x (sort_by xs)) (Perm.cons x (sort_by-perm xs))

module _ {ℓ κ} {A : Type ℓ} (P : A → Type κ) (before : A → A → Bool) where
  All-insert_by : (x : A) (ys : List A) → P x → All P ys → All P (insert_by before x ys)
  unfolding insert_by
  All-insert_by x [] p h = (p, tt)
  All-insert_by x (y ∷ ys) p (q, h) = elim (Bool-cases (before x y)) [
    | inl e ↦ rw e (p, (q, h))
    | inr e ↦ rw e (q, All-insert_by x ys p h)
  ]

  -- What holds of every row still holds of every row once they are ordered.
  pub All-sort_by : (xs : List A) → All P xs → All P (sort_by before xs)
  unfolding sort_by
  All-sort_by [] h = tt
  All-sort_by (x ∷ xs) (p, h) = All-insert_by x (sort_by before xs) p (All-sort_by xs h)
