-- ===== src/Web/ActivityFilters/Params.antt =====
-- The filters in a URL: what is written is read back.
use mathlib.Core.List.{append-nil}
use rsp_website.Prelude.{
  ◌≡◌, refl, ◌∙◌, ap, String, Bool, true, false, List, [], ◌∷◌, ◌++◌, arith, if◌then◌else◌, str_eq,
  eq_iff, eq_refl, Bool-cases, inl, inr, delete_rows, select_rows,
}
use rsp_website.Web.ActivityFilters.{
  ActivityFilters, Params, appended, items_of, activity_filter_query, get_all, first_or_empty,
  read_filters, update_field, Change, difficulties_to, categories_to, weeks_to, interviewers_to,
  interviewees_to, passed_to, key_of, new_items, update,
}

get_all-append :
    (key : String) (a b : Params) → get_all key (a ++ b) ≡ get_all key a ++ get_all key b
unfolding get_all
get_all-append key [] b = refl
get_all-append key ((k, v) ∷ a) b = elim (Bool-cases (str_eq k key)) [
  | inl e ↦ rw e (ap (λ (vs : List String). v ∷ vs) (get_all-append key a b))
  | inr e ↦ rw e (get_all-append key a b)
]

-- the pairs of one key, seen from another key or from the same
get_all-appended :
    (key k : String) (items : List String)
    → get_all key (appended k items) ≡ (if str_eq k key then items else [])
unfolding get_all
get_all-appended key k [] = ground arith
get_all-appended key k (x ∷ xs) = elim (Bool-cases (str_eq k key)) [
  | inl e ↦ rw e (ap (λ (vs : List String). x ∷ vs) (get_all-appended key k xs ∙ rw e refl))
  | inr e ↦ rw e (get_all-appended key k xs ∙ rw e refl)
]

get_all-block :
    (key k : String) (items : List String) (rest : Params)
    → get_all key (appended k items ++ rest)
      ≡ (if str_eq k key then items else []) ++ get_all key rest
get_all-block key k items rest =
    get_all-append key (appended k items) rest
    ∙ ap (λ (vs : List String). vs ++ get_all key rest) (get_all-appended key k items)

-- the blocks of the six keys, one behind the other
get_all-six :
    (key : String) (f : ActivityFilters)
    → get_all key (activity_filter_query f)
      ≡ (if str_eq "difficulty" key then f.difficulties else [])
        ++ ((if str_eq "category" key then f.categories else [])
            ++ ((if str_eq "weekId" key then f.weeks else [])
                ++ ((if str_eq "interviewerId" key then f.interviewers else [])
                    ++ ((if str_eq "intervieweeId" key then f.interviewees else [])
                        ++ (if str_eq "passed" key then items_of f.passed else [])))))
unfolding activity_filter_query
get_all-six key f = simp (get_all-block, get_all-appended) refl

first_of_items : (s : String) → first_or_empty (items_of s) ≡ s
unfolding first_or_empty
first_of_items s = ground (arith, eq_iff s "")

-- Within a season, what `useActivityFilters` reads from the query of some filters is these filters.
pub read_filters-activity_filter_query :
    (f : ActivityFilters) → read_filters true (activity_filter_query f) ≡ f
unfolding read_filters
read_filters-activity_filter_query f i = record {
  difficulties = (get_all-six "difficulty" f ∙ append-nil f.difficulties) i;
  categories = (get_all-six "category" f ∙ append-nil f.categories) i;
  weeks = (get_all-six "weekId" f ∙ append-nil f.weeks) i;
  interviewers = (get_all-six "interviewerId" f ∙ append-nil f.interviewers) i;
  interviewees = (get_all-six "intervieweeId" f ∙ append-nil f.interviewees) i;
  passed = (ap first_or_empty (get_all-six "passed" f) ∙ first_of_items f.passed) i;
}

get_all-deleted :
    (key other : String) (params : Params)
    → get_all other (delete_rows (λ p. str_eq p.0 key) params)
      ≡ (if str_eq key other then [] else get_all other params)
unfolding get_all delete_rows select_rows
get_all-deleted key other [] = ground arith
get_all-deleted key other ((k, v) ∷ rest) =
    ground (arith, eq_iff k key, eq_iff key other, eq_iff k other, get_all-deleted key other rest)

-- An update of one field is read back as the new items, and the other fields are read as before.
pub get_all-update_field :
    (key other : String) (items : List String) (params : Params)
    → str_eq key other ≡ false
    → (get_all key (update_field key items params) ≡ items)
      × (get_all other (update_field key items params) ≡ get_all other params)
unfolding update_field
get_all-update_field key other items params h = (
  get_all-append key _ (appended key items)
      ∙ rw (get_all-deleted key key params, get_all-appended key key items, eq_refl key) refl,
  get_all-append other _ (appended key items)
      ∙ rw (get_all-deleted key other params, get_all-appended other key items, h)
          (append-nil (get_all other params)),
)

-- What an entry of a change makes of the filters; weeks are shown only within a season.
abbrev pub apply_change : Bool → Change → ActivityFilters → ActivityFilters
apply_change has_season (difficulties_to items) f = record f { difficulties = items }
apply_change has_season (categories_to items) f = record f { categories = items }
apply_change has_season (weeks_to items) f = record f { weeks = if has_season then items else [] }
apply_change has_season (interviewers_to items) f = record f { interviewers = items }
apply_change has_season (interviewees_to items) f = record f { interviewees = items }
apply_change has_season (passed_to value) f = record f { passed = value }

abbrev pub apply_changes : Bool → List Change → ActivityFilters → ActivityFilters
apply_changes has_season [] f = f
apply_changes has_season (c ∷ cs) f = apply_changes has_season cs (apply_change has_season c f)

one_of_two :
    (b : Bool) (xs ys : List String)
    → (if b then [] else ys) ++ (if b then xs else []) ≡ (if b then xs else ys)
one_of_two true xs ys = refl
one_of_two false xs ys = append-nil ys

get_all-updated :
    (key other : String) (items : List String) (params : Params)
    → get_all other (update_field key items params)
      ≡ (if str_eq key other then items else get_all other params)
unfolding update_field
get_all-updated key other items params =
    get_all-append other _ (appended key items)
    ∙ rw (get_all-deleted key other params, get_all-appended other key items)
        (one_of_two (str_eq key other) items (get_all other params))

read_filters-update_field :
    (has_season : Bool) (c : Change) (params : Params)
    → read_filters has_season (update_field (key_of c) (new_items c) params)
      ≡ apply_change has_season c (read_filters has_season params)
unfolding read_filters key_of new_items
read_filters-update_field has_season (difficulties_to items) params = simp get_all-updated refl
read_filters-update_field has_season (categories_to items) params = simp get_all-updated refl
read_filters-update_field has_season (weeks_to items) params = simp get_all-updated refl
read_filters-update_field has_season (interviewers_to items) params = simp get_all-updated refl
read_filters-update_field has_season (interviewees_to items) params = simp get_all-updated refl
read_filters-update_field has_season (passed_to value) params =
    simp (get_all-updated, first_of_items) refl

-- What is read from the address after an update is what was read before, with the changed fields as
-- they were set: the others keep their items, and weeks are read only within a season.
pub read_filters-update :
    (has_season : Bool) (changes : List Change) (params : Params)
    → read_filters has_season (update changes params)
      ≡ apply_changes has_season changes (read_filters has_season params)
unfolding update
read_filters-update has_season [] params = refl
read_filters-update has_season (c ∷ cs) params =
    read_filters-update has_season cs (update_field (key_of c) (new_items c) params)
    ∙ ap (apply_changes has_season cs) (read_filters-update_field has_season c params)
