-- ===== src/Models/User/Laws.antt =====
-- internal/models/user.go: what the setters do to the getters.
use taskqueue_go.Prelude.{◌≡◌, true, false, some, String, arith, if◌then◌else◌, ◌==◌}
use taskqueue_go.Prelude.Dict.{lookup-insert}
use taskqueue_go.GoTime.{Time}
use taskqueue_go.Models.Task.{TaskInterval}
use taskqueue_go.Models.User.{
  TaskSettings, UserPreference, is_task_enabled, enable_task, disable_task, set_task_settings,
  get_task_interval, custom_or,
}

-- Enabling a task makes that task enabled, disabling it makes it disabled, and both leave
-- every other task as it was.
pub is_task_enabled-toggle :
    (now : Time) (up : UserPreference) (task other : String)
    → (is_task_enabled (enable_task now up task) other
        ≡ (if other == task then true else is_task_enabled up other))
      × (is_task_enabled (disable_task now up task) other
          ≡ (if other == task then false else is_task_enabled up other))
unfolding is_task_enabled enable_task disable_task
is_task_enabled-toggle now up task other = (
  ground (arith, lookup-insert other task true up.enabled_tasks),
  ground (arith, lookup-insert other task false up.enabled_tasks),
)

-- Settings that are given for a task are in force for it, with its default interval where they
-- set none, and are read for no other task.
pub get_task_interval-set_task_settings :
    (now : Time) (up : UserPreference) (task other : String) (s : TaskSettings) (d : TaskInterval)
    → get_task_interval (set_task_settings now up task (some s)) other d ≡ (
        if other == task
        then some (custom_or d s.custom_interval)
        else get_task_interval up other d)
unfolding get_task_interval set_task_settings
get_task_interval-set_task_settings now up task other s d =
    ground (arith, lookup-insert other task (some s) up.task_settings)
