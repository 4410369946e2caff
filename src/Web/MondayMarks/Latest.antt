-- ===== src/Web/MondayMarks/Latest.antt =====
-- The order of updates, and that the one picked is the latest.
use rsp_website.Prelude.{
  ◌≡◌, refl, ◌↔◌, ◌⊎◌, inl, inr, Bool, true, false, none, some, List, [], ◌∷◌, if◌then◌else◌, arith,
  Text, text_eq_iff, All, Bool-cases, eq_of_some, ap, sym, ◌∙◌,
}
use mathlib.Core.Path.{subst}
use rsp_website.Prelude.Lists.{Any}
use rsp_website.Web.MondayMarks.{
  MarkedUpdate, LatestMark, text_gt, is_later, newer, pick, pick_latest_mark, with_newest_mark,
  marked,
}

text_gt_asym : (s t : Text) → text_gt s t ≡ true → text_gt t s ≡ false
unfolding text_gt
text_gt_asym [] t h = cc
text_gt_asym (a ∷ s) [] h = refl
text_gt_asym (a ∷ s) (b ∷ t) h = ground (arith, text_gt_asym s t)

text_gt_total : (s t : Text) → text_gt s t ≡ false → text_gt t s ≡ false → s ≡ t
unfolding text_gt
text_gt_total [] [] h k = refl
text_gt_total [] (b ∷ t) h k = cc
text_gt_total (a ∷ s) [] h k = cc
text_gt_total (a ∷ s) (b ∷ t) h k = ground (arith, text_gt_total s t)

text_gt_trans : (s t u : Text) → text_gt s t ≡ false → text_gt t u ≡ false → text_gt s u ≡ false
unfolding text_gt
text_gt_trans [] t u h k = refl
text_gt_trans (a ∷ s) [] u h k = cc
text_gt_trans (a ∷ s) (b ∷ t) [] h k = cc
text_gt_trans (a ∷ s) (b ∷ t) (c ∷ u) h k = ground (arith, text_gt_trans s t u)

is_later_asym : (u v : MarkedUpdate) → is_later u v ≡ true → is_later v u ≡ false
unfolding is_later
is_later_asym u v h = ground (
  arith,
  text_gt_asym u.start_date v.start_date,
  text_gt_asym v.start_date u.start_date,
  text_gt_asym u.created_at v.created_at,
  text_eq_iff u.start_date v.start_date,
  text_eq_iff v.start_date u.start_date,
)

is_later_iff :
    (u v : MarkedUpdate)
    → (is_later u v ≡ false) ↔ (
        (text_gt u.start_date v.start_date ≡ false)
        × (u.start_date ≡ v.start_date → text_gt u.created_at v.created_at ≡ false))
unfolding is_later
is_later_iff u v = ground (arith, text_eq_iff u.start_date v.start_date)

is_later_trans :
    (u v w : MarkedUpdate) → is_later u v ≡ false → is_later v w ≡ false → is_later u w ≡ false
is_later_trans u v w h k =
    let (start, created) = (is_later_iff u v).0 h in
    let (start_w, created_w) = (is_later_iff v w).0 k in
    (is_later_iff u w).1 (
      text_gt_trans _ _ _ start start_w,
      λ same.
          let uv =
            text_gt_total _ _ start
              (subst (λ t. text_gt v.start_date t ≡ false) (sym same) start_w) in
          text_gt_trans _ _ _ (created uv) (created_w (sym uv ∙ same)),
    )

is_later_refl : (u : MarkedUpdate) → is_later u u ≡ false
is_later_refl u = elim (Bool-cases (is_later u u)) [ inl t ↦ is_later_asym u u t | inr f ↦ f ]

-- An update of the list than which none of the list is later.
abbrev pub IsLatest : MarkedUpdate → List MarkedUpdate → Type 0
IsLatest m us = Any (λ u. u ≡ m) us × All (λ u. is_later u m ≡ false) us

pick_step :
    (l u : MarkedUpdate) (b : Bool)
    → is_later u l ≡ b
    → newer (some l) u ≡ (if b then some u else some l)
unfolding newer
pick_step l u b e = rw e refl

pick-IsLatest :
    (l : MarkedUpdate) (us : List MarkedUpdate) (m : MarkedUpdate)
    → pick (some l) us ≡ some m
    → IsLatest m (l ∷ us)
unfolding pick
pick-IsLatest l [] m h =
    let same : l ≡ m = eq_of_some h in
    (inl same, (subst (λ x. is_later l x ≡ false) same (is_later_refl l), tt))
pick-IsLatest l (u ∷ us) m h = elim (Bool-cases (is_later u l)) [
  | inl t ↦
      let (among, (not_after, rest)) =
        pick-IsLatest u us m (subst (λ o. pick o us ≡ some m) (pick_step l u true t) h) in
      (inr among, (is_later_trans l u m (is_later_asym u l t) not_after, (not_after, rest)))
  | inr f ↦
      let (among, (not_after, rest)) =
        pick-IsLatest l us m (subst (λ o. pick o us ≡ some m) (pick_step l u false f) h) in
      (
        elim among [ inl e ↦ inl e | inr a ↦ inr (inr a) ],
        (not_after, (is_later_trans u l m f not_after, rest)),
      )
]

-- A loop that has an update picks one, however it goes on.
pick_ends :
    (l : MarkedUpdate) (us : List MarkedUpdate) → (m : MarkedUpdate) × (pick (some l) us ≡ some m)
unfolding pick
pick_ends l [] = (l, refl)
pick_ends l (u ∷ us) = elim (Bool-cases (is_later u l)) [
  | inl t ↦ let (m, e) = pick_ends u us in (m, ap (λ o. pick o us) (pick_step l u true t) ∙ e)
  | inr f ↦ let (m, e) = pick_ends l us in (m, ap (λ o. pick o us) (pick_step l u false f) ∙ e)
]

marked_of :
    (is_after : Text → Text → Bool) (us : List MarkedUpdate) (m : MarkedUpdate)
    → pick none us ≡ some m
    → pick_latest_mark is_after us ≡ some (with_newest_mark is_after m)
unfolding pick_latest_mark marked
marked_of is_after us m e = ap (marked is_after) e

latest_update :
    (is_after : Text → Text → Bool) (m : MarkedUpdate) → m ≡ (with_newest_mark is_after m).update
unfolding with_newest_mark
latest_update is_after m = refl

-- Without an update there is no latest mark. With one there is, of an update of the list, and no
-- update of the list starts later, or on the same day with a later time of posting.
pub pick_latest_mark-IsLatest :
    (is_after : Text → Text → Bool) (updates : List MarkedUpdate)
    → ((updates ≡ []) × (pick_latest_mark is_after updates ≡ none))
      ⊎ ((l : LatestMark) × (pick_latest_mark is_after updates ≡ some l)
          × IsLatest l.update updates)
unfolding pick_latest_mark marked pick newer
pick_latest_mark-IsLatest is_after [] = inl (refl, refl)
pick_latest_mark-IsLatest is_after (u ∷ us) =
    let (m, e) = pick_ends u us in
    inr (
      with_newest_mark is_after m,
      marked_of is_after (u ∷ us) m e,
      subst (λ x. IsLatest x (u ∷ us)) (latest_update is_after m) (pick-IsLatest u us m e),
    )
