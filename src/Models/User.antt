-- ===== src/Models/User.antt =====
-- internal/models/user.go: a user's preferences. The maps are those that NewUserPreference makes,
-- so a write never meets a nil map.
pub mod Laws
use taskqueue_go.Prelude.{Bool, true, false, Option, none, some, List, [], String, if◌then◌else◌}
use taskqueue_go.Prelude.Dict.{Dict, lookup, insert}
use taskqueue_go.GoTime.{Time}
use taskqueue_go.Models.Task.{TaskInterval}

pub record TaskSettings : Type 0 where
  pub custom_interval : Option TaskInterval
  pub parameters : Dict String

-- A value of task_settings is a pointer, which may be nil.
pub record UserPreference : Type 0 where
  pub user_id : String
  pub enabled_tasks : Dict Bool
  pub task_settings : Dict (Option TaskSettings)
  pub last_modified : Time

unfoldable pub new_user_preference : Time → String → UserPreference
new_user_preference now user_id = record {
  user_id = user_id;
  enabled_tasks = [];
  task_settings = [];
  last_modified = now;
}

abbrev pub exists_and : Option Bool → Bool
exists_and none = false
exists_and (some enabled) = enabled

unfoldable pub is_task_enabled : UserPreference → String → Bool
is_task_enabled up task_id = exists_and (lookup task_id up.enabled_tasks)

unfoldable pub enable_task : Time → UserPreference → String → UserPreference
enable_task now up task_id = record up {
  enabled_tasks = insert task_id true up.enabled_tasks;
  last_modified = now;
}

unfoldable pub disable_task : Time → UserPreference → String → UserPreference
disable_task now up task_id = record up {
  enabled_tasks = insert task_id false up.enabled_tasks;
  last_modified = now;
}

unfoldable pub set_task_settings :
    Time → UserPreference → String → Option TaskSettings → UserPreference
set_task_settings now up task_id settings = record up {
  task_settings = insert task_id settings up.task_settings;
  last_modified = now;
}

abbrev pub custom_or : TaskInterval → Option TaskInterval → TaskInterval
custom_or default none = default
custom_or default (some custom) = custom

-- `none` is a panic: the settings of the task are there and are nil.
abbrev interval_of : TaskInterval → Option (Option TaskSettings) → Option TaskInterval
interval_of default none = some default
interval_of default (some none) = none
interval_of default (some (some settings)) = some (custom_or default settings.custom_interval)

unfoldable pub get_task_interval : UserPreference → String → TaskInterval → Option TaskInterval
get_task_interval up task_id default_interval =
    interval_of default_interval (lookup task_id up.task_settings)
