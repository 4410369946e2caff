-- ===== src/Web/ActivityFilters.antt =====
-- The filters of the activity pages and their form in a URL (apps/web/src/activityFilters.ts, and
-- `interviewPassed` of apps/web/src/utils.ts). `URLSearchParams` is the list of its pairs.
pub mod Params
pub mod Selection
use mathlib.Core.Option
use rsp_website.Prelude.{
  ℕ, String, Bool, true, false, not, ◌&&◌, ◌||◌, Option, none, some, List, [], ◌∷◌, ◌++◌, map, leb,
  ltb, if◌then◌else◌, str_eq, length, every, some_of, includes, select_rows, delete_rows,
}

pub record ActivityFilters : Type 0 where
  pub difficulties : List String
  pub categories : List String
  pub weeks : List String
  pub interviewers : List String
  pub interviewees : List String
  pub passed : String

abbrev pub empty_activity_filters : ActivityFilters
empty_activity_filters = record {
  difficulties = [];
  categories = [];
  weeks = [];
  interviewers = [];
  interviewees = [];
  passed = "";
}

abbrev pub Params : Type 0
Params = List (String × String)

-- `params.append(key, item)` for each item
abbrev pub appended : String → List String → Params
appended key items = map (λ item. (key, item)) items

-- a text is one item, and the empty text is none
abbrev pub items_of : String → List String
items_of value = if str_eq value "" then [] else value ∷ []

-- the pairs of `activityFilterQuery`, in the order of the table `keys`
pub activity_filter_query : ActivityFilters → Params
activity_filter_query f =
    appended "difficulty" f.difficulties
    ++ (appended "category" f.categories
        ++ (appended "weekId" f.weeks
            ++ (appended "interviewerId" f.interviewers
                ++ (appended "intervieweeId" f.interviewees
                    ++ appended "passed" (items_of f.passed)))))

pub get_all : String → Params → List String
get_all key [] = []
get_all key ((k, v) ∷ rest) =
    let others = get_all key rest in if str_eq k key then v ∷ others else others

pub first_or_empty : List String → String
first_or_empty [] = ""
first_or_empty (v ∷ _) = v

-- the filters that `useActivityFilters` reads; weeks count only within a season
pub read_filters : Bool → Params → ActivityFilters
unfolding get_all first_or_empty
read_filters has_season params = record {
  difficulties = get_all "difficulty" params;
  categories = get_all "category" params;
  weeks = if has_season then get_all "weekId" params else [];
  interviewers = get_all "interviewerId" params;
  interviewees = get_all "intervieweeId" params;
  passed = first_or_empty (get_all "passed" params);
}

-- one field of `update`: its pairs are deleted and the new ones come at the end
pub update_field : String → List String → Params → Params
update_field key items params = delete_rows (λ p. str_eq p.0 key) params ++ appended key items

-- an entry of a `Partial<ActivityFilters>`
pub data Change : Type 0 where
  difficulties_to categories_to weeks_to interviewers_to interviewees_to : List String → Change
  passed_to : String → Change

-- `keys[field]`, and the items of the value
pub key_of : Change → String
key_of (difficulties_to _) = "difficulty"
key_of (categories_to _) = "category"
key_of (weeks_to _) = "weekId"
key_of (interviewers_to _) = "interviewerId"
key_of (interviewees_to _) = "intervieweeId"
key_of (passed_to _) = "passed"

pub new_items : Change → List String
new_items (difficulties_to items) = items
new_items (categories_to items) = items
new_items (weeks_to items) = items
new_items (interviewers_to items) = items
new_items (interviewees_to items) = items
new_items (passed_to value) = items_of value

-- `update`, over the entries of the change
pub update : List Change → Params → Params
unfolding update_field key_of new_items
update [] params = params
update (c ∷ cs) params = update cs (update_field (key_of c) (new_items c) params)

pub record Attempt : Type 0 where
  pub difficulty : Option String
  pub category : Option String
  pub categories : Option (List String)
  pub week_id : Option String

pub record MockInterview : Type 0 where
  pub interviewer : String
  pub interviewee : String
  pub week_id : Option String
  pub scores : List (Option ℕ)

unfoldable pub is_passing : Option ℕ → Bool
is_passing none = false
is_passing (some score) = leb 5 score

pub interview_passed : MockInterview → Bool
unfolding is_passing
interview_passed m = ltb 0 (length m.scores) && every is_passing m.scores

-- `!list.length || list.includes(value)`
abbrev pub admits : List String → String → Bool
admits [] value = true
admits (x ∷ xs) value = includes (x ∷ xs) value

or_empty : Option String → String
or_empty none = ""
or_empty (some s) = s

categories_of : Option (List String) → Option String → List String
categories_of (some cs) _ = cs
categories_of none none = []
categories_of none (some c) = items_of c

abbrev pub admits_some : List String → List String → Bool
admits_some [] values = true
admits_some (x ∷ xs) values = some_of (includes (x ∷ xs)) values

-- `lower` is `toLowerCase`
pub admits_attempt : (String → String) → ActivityFilters → Attempt → Bool
unfolding or_empty categories_of
admits_attempt lower f a =
    admits f.difficulties (or_empty (Option.map lower a.difficulty))
    && admits_some f.categories (categories_of a.categories a.category)
    && admits f.weeks (or_empty a.week_id)

pub filter_practice : (String → String) → List Attempt → ActivityFilters → List Attempt
unfolding admits_attempt
filter_practice lower attempts f = select_rows (admits_attempt lower f) attempts

same_bool : Bool → Bool → Bool
same_bool true b = b
same_bool false b = not b

pub admits_mock : ActivityFilters → MockInterview → Bool
unfolding interview_passed or_empty same_bool
admits_mock f m =
    admits f.interviewers m.interviewer
    && admits f.interviewees m.interviewee
    && (str_eq f.passed "" || same_bool (interview_passed m) (str_eq f.passed "true"))
    && admits f.weeks (or_empty m.week_id)

pub filter_mocks : List MockInterview → ActivityFilters → List MockInterview
unfolding admits_mock
filter_mocks mocks f = select_rows (admits_mock f) mocks
