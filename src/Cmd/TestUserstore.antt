-- ===== src/Cmd/TestUserstore.antt =====
-- cmd/test-userstore/main.go: a program that tries the user store out. What it logs is its output.
-- Redis is the interface of UserStore/Commands, and Answers says how each of its calls ends. The hint
-- that follows a failed connection is left out.
pub mod Returns
pub mod Told
pub mod Tests
use taskqueue_go.Prelude.{
  ℕ, ◌<>◌, Bool, true, false, Option, none, some, List, [], ◌∷◌, ◌++◌, String, Result, ok, err,
  Failure, length,
}
use taskqueue_go.Prelude.Int.{ℤ, pos}
use taskqueue_go.Prelude.Dict.{Dict, lookup}
use taskqueue_go.GoTime.{Time}
use taskqueue_go.Models.Task.{TaskInterval, interval_type_daily}
use taskqueue_go.Models.User.{UserPreference, TaskSettings}
use taskqueue_go.UserStore.Commands.{Redis, Formats}
use taskqueue_go.UserStore.{
  Exec, enable_task_for_user, get_users_with_enabled_task, get_user_count, get_task_enabled_count,
}
use taskqueue_go.UserStore.Preference.{get_user_preference, save_user_preference}
use taskqueue_go.UserStore.Pattern.Search.{get_users_by_task_pattern}
use taskqueue_go.Cmd.{SetUp, exited, panicked, ready}

-- How the calls of Redis end, and what the clock says at each.
pub record Answers : Type 0 where
  pub ping : Failure
  pub enabling : String → String → Exec  -- user, task
  pub stamp : String → String → String
  pub saving : Exec
  pub save_time : Time
  pub counting : Failure
  pub listing : Failure
  pub counting_task : Failure
  pub listing_all : String → Failure  -- pattern
  pub reading : String → String → Failure  -- pattern, user
  pub search_time : String → Time
  pub inspecting : Failure
  pub inspect_time : Time

-- A line of the log with what it tells.
pub data Line : Type 0 where
  heading : String → Line
  failed : String → List String → String → Line  -- message, subject, error
  tasks_enabled : String → List String → Line
  saved : String → Line
  total_users : ℤ → Line
  users_with_task : String → List String → Line
  task_count : String → ℤ → Line
  users_with_pattern : String → List String → Line
  details : String → ℕ → ℕ → String → Line
  task_status : String → String → Bool → Line
  custom_interval : String → String → TaskInterval → Line
  custom_parameters : String → String → Dict String → Line

abbrev pub users : List (String × List String)
users =
    ("user1", "daily_user_report" ∷ "hourly_data_sync" ∷ [])
    ∷ ("user2", "daily_user_report" ∷ "weekly_backup" ∷ [])
    ∷ ("user3", "hourly_data_sync" ∷ "monthly_billing" ∷ [])
    ∷ ("user4", "daily_system_metrics" ∷ "bi_hourly_health_check" ∷ [])
    ∷ []

-- The caller's LastModified is Go's zero time.
abbrev pub custom_user : UserPreference
custom_user = record {
  user_id = "premium_user";
  enabled_tasks =
      ("daily_user_report", true) ∷ ("weekly_analytics", true) ∷ ("monthly_billing", false) ∷ [];
  task_settings =
      (
        "daily_user_report",
        some (record {
          custom_interval = some (record {
            type = interval_type_daily;
            value = pos 1;
            timezone = "America/New_York";
            at_time = some (record { hour_of_day = pos 8; minute = pos 30 });
          });
          parameters =
              ("format", "premium") ∷ ("language", "en") ∷ ("timezone", "America/New_York") ∷ [];
        }),
      )
      ∷ [];
  last_modified = pos 0;
}

abbrev pub task_to_check : String
task_to_check = "daily_user_report"

abbrev pub patterns : List String
patterns = "daily_*" ∷ "hourly_*" ∷ "*billing" ∷ "*" ∷ []

abbrev pub user_to_inspect : String
user_to_inspect = "premium_user"

abbrev pub failure_line : String → List String → Failure → List Line
failure_line message subject none = []
failure_line message subject (some e) = failed message subject e ∷ []

abbrev pub answer_line {ℓ} : {A : Type ℓ} → String → List String → (A → Line) → Result A → Line
answer_line message subject told (ok a) = told a
answer_line message subject told (err e) = failed message subject e

-- What is logged after SaveUserPreference.
abbrev pub save_line : Failure → Line
save_line none = saved custom_user.user_id
save_line (some e) = failed "Failed to save custom user preference" [] e

unfoldable pub status_lines : Dict Bool → List Line
status_lines [] = []
status_lines ((task_id, enabled) ∷ tasks) =
    task_status user_to_inspect task_id enabled ∷ status_lines tasks

abbrev interval_line : Option TaskInterval → List Line
interval_line none = []
interval_line (some i) = custom_interval user_to_inspect "daily_user_report" i ∷ []

-- The settings of one task; `none` is a panic, where they are there and are nil.
abbrev pub settings_lines : Option (Option TaskSettings) → Option (List Line)
settings_lines none = some []
settings_lines (some none) = none
settings_lines (some (some settings)) = some (
    interval_line settings.custom_interval
    ++ (custom_parameters user_to_inspect "daily_user_report" settings.parameters ∷ []))

abbrev pub after_lines : List Line → Option (List Line) → Option (List Line)
after_lines before none = none
after_lines before (some more) = some (before ++ more)

module _ (F : Formats) where
  unfoldable pub detail_lines : Result UserPreference → Option (List Line)
  detail_lines (err e) = some (failed "Failed to get user preference" (user_to_inspect ∷ []) e ∷ [])
  detail_lines (ok pref) =
      after_lines
        (details pref.user_id (length pref.enabled_tasks) (length pref.task_settings)
            (F.format_time pref.last_modified)
          ∷ status_lines pref.enabled_tasks)
        (settings_lines (lookup "daily_user_report" pref.task_settings))

module _ (F : Formats) (R : Redis) (a : Answers) where
  -- The inner loop: a task that cannot be enabled is logged and passed over.
  unfoldable pub enable_tasks : String → List String → R.State → List Line × R.State
  enable_tasks user [] s = ([], s)
  enable_tasks user (task_id ∷ tasks) s =
      let (failure, s') =
        enable_task_for_user R (a.enabling user task_id) (a.stamp user task_id) user task_id s in
      let (lines, s'') = enable_tasks user tasks s' in
      (failure_line "Failed to enable task" (user ∷ task_id ∷ []) failure ++ lines, s'')

  unfoldable pub enable_users : List (String × List String) → R.State → List Line × R.State
  enable_users [] s = ([], s)
  enable_users ((user, tasks) ∷ others) s =
      let (lines, s') = enable_tasks user tasks s in
      let (more, s'') = enable_users others s' in (lines ++ (tasks_enabled user tasks ∷ more), s'')

  unfoldable pub search_lines : List String → R.State → List Line
  search_lines [] s = []
  search_lines (pattern' ∷ more) s =
      answer_line "Failed to search by pattern" (pattern' ∷ []) (users_with_pattern pattern') (
        get_users_by_task_pattern F R (a.listing_all pattern') (a.reading pattern')
          (a.search_time pattern') pattern' s)
      ∷ search_lines more s

  -- The queries, which leave Redis as it is.
  unfoldable pub query_lines : R.State → List Line
  query_lines s =
      answer_line "Failed to get user count" [] total_users (get_user_count R a.counting s)
      ∷ answer_line "Failed to get users with task" (task_to_check ∷ [])
          (users_with_task task_to_check) (get_users_with_enabled_task R a.listing task_to_check s)
      ∷ answer_line "Failed to get task count" (task_to_check ∷ []) (task_count task_to_check)
          (get_task_enabled_count R a.counting_task task_to_check s)
      ∷ search_lines patterns s

  -- What is logged before the details: the lines of the users, of the user with settings, and of the
  -- queries.
  abbrev pub before_details : List Line → Failure → List Line → List Line
  before_details set failure queries =
      heading "=== User Store Demo ==="
      ∷ heading "Setting up user preferences..."
      ∷ (set
          ++ (heading "Creating user with custom settings..."
              ∷ save_line failure
              ∷ heading "=== Query Examples ==="
              ∷ (queries ++ (heading "=== User Details ===" ∷ []))))

  abbrev pub concluded : List Line → Option (List Line) → R.State → SetUp (List Line × R.State)
  concluded lines none s = panicked
  concluded lines (some more) s =
      ready (lines ++ (more ++ (heading "Demo completed successfully!" ∷ [])), s)

  -- main after the connection: the users, the user with settings, the queries and the details.
  unfoldable pub demo : R.State → SetUp (List Line × R.State)
  demo s =
      let (set, s') = enable_users users s in
      let (failure, _, s'') = save_user_preference F R a.saving a.save_time custom_user s' in
      concluded (before_details set failure (query_lines s''))
        (detail_lines F (get_user_preference F R a.inspecting a.inspect_time user_to_inspect s''))
        s''

  abbrev pub connected_then : Failure → SetUp (List Line × R.State) → SetUp (List Line × R.State)
  connected_then none next = next
  connected_then (some e) next = exited ("Failed to connect to Redis: " <> e)

  unfoldable pub main : R.State → SetUp (List Line × R.State)
  main s = connected_then a.ping (demo s)
