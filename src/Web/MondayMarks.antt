-- ===== src/Web/MondayMarks.antt =====
-- The marks of Monday updates (apps/web/src/mondayMarks.ts): the latest mark of a student and its rank
-- in a sorted table. Texts are compared by `>` code unit by code unit; the order of `localeCompare` is
-- the parameter `is_after`.
pub mod Latest
use rsp_website.Prelude.{
  ℕ, ◌-◌, ◌+◌, Bool, true, false, not, ◌&&◌, ◌||◌, ◌==◌, ltb, Option, none, some, List, [], ◌∷◌,
  if◌then◌else◌, Text, text_eq, sort_by, length,
}

pub data Mark : Type 0 where
  way_ahead doing_good on_track a_bit_behind at_risk : Mark

pub record MarkRecord : Type 0 where
  pub mark : Mark
  pub updated_at : Text

pub record MarkedUpdate : Type 0 where
  pub start_date : Text
  pub end_date : Text
  pub created_at : Text
  pub marks : List MarkRecord

pub record LatestMark : Type 0 where
  pub update : MarkedUpdate
  pub newest_mark : Option MarkRecord

abbrev pub mark_options : List Mark
mark_options = way_ahead ∷ doing_good ∷ on_track ∷ a_bit_behind ∷ at_risk ∷ []

-- `s > t` of texts
unfoldable pub text_gt : Text → Text → Bool
text_gt [] t = false
text_gt (a ∷ s) [] = true
text_gt (a ∷ s) (b ∷ t) = if a == b then text_gt s t else ltb b a

unfoldable pub is_later : MarkedUpdate → MarkedUpdate → Bool
is_later u latest =
    text_gt u.start_date latest.start_date
    || text_eq u.start_date latest.start_date && text_gt u.created_at latest.created_at

unfoldable pub newer : Option MarkedUpdate → MarkedUpdate → Option MarkedUpdate
newer none u = some u
newer (some latest) u = if is_later u latest then some u else some latest

-- the `for` loop over the updates
unfoldable pub pick : Option MarkedUpdate → List MarkedUpdate → Option MarkedUpdate
pick latest [] = latest
pick latest (u ∷ us) = pick (newer latest u) us

abbrev pub head_of : List MarkRecord → Option MarkRecord
head_of [] = none
head_of (m ∷ ms) = some m

module _ (is_after : Text → Text → Bool) where
  -- a stable sort: of two marks the first stays first unless the second was saved after it
  abbrev pub comes_first : MarkRecord → MarkRecord → Bool
  comes_first left right = not (is_after right.updated_at left.updated_at)

  -- an update with its most recently saved mark
  unfoldable pub with_newest_mark : MarkedUpdate → LatestMark
  with_newest_mark latest = record {
    update = latest;
    newest_mark = head_of (sort_by comes_first latest.marks);
  }

  -- `if (!latest) return undefined` and what follows
  unfoldable pub marked : Option MarkedUpdate → Option LatestMark
  marked none = none
  marked (some latest) = some (with_newest_mark latest)

  unfoldable pub pick_latest_mark : List MarkedUpdate → Option LatestMark
  pick_latest_mark updates = marked (pick none updates)

abbrev pub same_mark : Mark → Mark → Bool
same_mark way_ahead way_ahead = true
same_mark doing_good doing_good = true
same_mark on_track on_track = true
same_mark a_bit_behind a_bit_behind = true
same_mark at_risk at_risk = true
same_mark _ _ = false

-- `markOptions.findIndex`, where the mark stands in the list
unfoldable pub index_of : Mark → List Mark → ℕ
index_of m [] = 0
index_of m (o ∷ os) = let rest = index_of m os in if same_mark o m then 0 else rest + 1

-- what a table has of a student: `null`, `undefined`, or the latest update
pub data MaybeLatest : Type 0 where
  null undefined : MaybeLatest
  latest_of : LatestMark → MaybeLatest

unfoldable pub latest_mark_rank : MaybeLatest → ℕ
latest_mark_rank null = 7
latest_mark_rank undefined = 6
latest_mark_rank (latest_of l) = elim l.newest_mark [
  | none ↦ 5
  | some m ↦ length mark_options - 1 - index_of m.mark mark_options
]
