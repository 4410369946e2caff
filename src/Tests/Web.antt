-- ===== src/Tests/Web.antt =====
-- The theorems on the parts of the web application at concrete inputs.
use rsp_website.Prelude.{
  refl, ◌≢◌, ◌⊎◌, ◌↔◌, ◌≡◌, true, false, not, none, some, List, [], ◌∷◌, if◌then◌else◌, select_rows,
  codes, sort_by,
}
use rsp_website.Prelude.Sorting.{insert_by}
use rsp_website.Prelude.Lists.{Any}
use rsp_website.Security.AccessPolicy.{active}
use rsp_website.Web.StudentLevels.{CurrentUser, Season, mentor, current, can_set_student_level}
use rsp_website.Web.StudentLevels.Permission.{IsGuide, can_set_student_level_iff}
use rsp_website.Web.ActivityAnalytics.{easy, difficulty_breakdown, difficulty_success_rates}
use rsp_website.Web.ActivityFilters.{
  ActivityFilters, Params, difficulties_to, weeks_to, passed_to, update, empty_activity_filters,
  read_filters, Attempt, MockInterview, filter_mocks, interview_passed,
}
use rsp_website.Web.ActivityFilters.Params.{apply_changes, read_filters-update}
use rsp_website.Web.ActivityFilters.Selection.{interview_passed_iff, filter_mocks_passed}
use rsp_website.Web.MondayMarks.{
  MarkedUpdate, LatestMark, null, undefined, latest_of, on_track, at_risk, text_gt, is_later, newer,
  pick, pick_latest_mark, marked, with_newest_mark, index_of, latest_mark_rank,
}
use rsp_website.Web.MondayMarks.Latest.{IsLatest, pick_latest_mark-IsLatest}

abbrev hard_only : ActivityFilters
hard_only = record empty_activity_filters {
  difficulties = "hard" ∷ [];
  weeks = "w1" ∷ "w2" ∷ [];
  passed = "true";
}

abbrev address_bar : Params
address_bar = ("weekId", "w1") ∷ ("passed", "true") ∷ []

read_filters-update_example :
    read_filters false (
      update (difficulties_to ("easy" ∷ []) ∷ weeks_to ("w2" ∷ []) ∷ passed_to "" ∷ []) address_bar)
    ≡ apply_changes false
        (difficulties_to ("easy" ∷ []) ∷ weeks_to ("w2" ∷ []) ∷ passed_to "" ∷ [])
        (read_filters false address_bar)
read_filters-update_example =
    read_filters-update false
      (difficulties_to ("easy" ∷ []) ∷ weeks_to ("w2" ∷ []) ∷ passed_to "" ∷ []) address_bar

abbrev attempt_list : List Attempt
attempt_list =
    record { difficulty = some "hard"; category = none; categories = none; week_id = some "w1" }
    ∷ []

abbrev mock_list : List MockInterview
mock_list =
    record { interviewer = "ada"; interviewee = "bob"; week_id = none; scores = some 5 ∷ none ∷ [] }
    ∷ []

filter_mocks_passed_example :
    filter_mocks mock_list
      (record empty_activity_filters { passed = if false then "true" else "false" })
    ≡ select_rows (λ m. if false then interview_passed m else not (interview_passed m)) mock_list
filter_mocks_passed_example =
    filter_mocks_passed interview_passed mock_list false interview_passed_iff

abbrev mentor_user : CurrentUser
mentor_user = record {
  email_verified = true;
  account_state = active;
  global_roles = [];
  season_roles = record { season_id = "s1"; role = mentor; state = current } ∷ [];
}

abbrev open_season : Season
open_season = record { id = "s1"; is_open = true }

can_set_student_level_iff_example :
    (can_set_student_level (some mentor_user) (some open_season) ≡ true) ↔ (
      (true ≡ true)
      × (true ≡ true)
      × (active ≡ active)
      × ((mentor_user.global_roles ≢ []) ⊎ Any (IsGuide "s1") mentor_user.season_roles))
can_set_student_level_iff_example = can_set_student_level_iff mentor_user open_season

abbrev solved_attempts : List rsp_website.Web.ActivityAnalytics.Attempt
solved_attempts =
    record { difficulty = some easy; is_solved = true; minutes = some 10 }
    ∷ record { difficulty = none; is_solved = false; minutes = none }
    ∷ []

-- two updates of the same week; two mentors marked the second
abbrev first_post : MarkedUpdate
first_post = record {
  start_date = codes "2026-03-02";
  end_date = codes "2026-03-08";
  created_at = codes "2026-03-09T01:00:00Z";
  marks = [];
}

abbrev second_post : MarkedUpdate
second_post = record first_post {
  created_at = codes "2026-03-09T02:00:00Z";
  marks =
      record { mark = at_risk; updated_at = codes "2026-03-10" }
      ∷ record { mark = on_track; updated_at = codes "2026-03-11" }
      ∷ [];
}

abbrev second_marked : LatestMark
second_marked = record {
  update = second_post;
  newest_mark = some (record { mark = on_track; updated_at = codes "2026-03-11" });
}

second_post_is_latest :
    pick_latest_mark text_gt (first_post ∷ second_post ∷ first_post ∷ []) ≡ some second_marked
unfolding pick_latest_mark marked with_newest_mark pick newer is_later text_gt sort_by insert_by
second_post_is_latest = refl

ranks :
    (latest_mark_rank (latest_of second_marked) ≡ 2)
    × (latest_mark_rank undefined ≡ 6)
    × (latest_mark_rank null ≡ 7)
unfolding latest_mark_rank index_of
ranks = (refl, refl, refl)

pick_latest_mark-IsLatest_example :
    ((first_post ∷ second_post ∷ [] ≡ [])
      × (pick_latest_mark text_gt (first_post ∷ second_post ∷ []) ≡ none))
    ⊎ ((l : LatestMark) × (pick_latest_mark text_gt (first_post ∷ second_post ∷ []) ≡ some l)
        × IsLatest l.update (first_post ∷ second_post ∷ []))
pick_latest_mark-IsLatest_example =
    pick_latest_mark-IsLatest text_gt (first_post ∷ second_post ∷ [])
