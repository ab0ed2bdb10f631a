-- ===== src/Registry/Kept.antt =====
-- internal/storage/registry.go: what the registry keeps of a definition, field by field, with no
-- conversion and no validation in it.
use taskqueue_go.Prelude.{◌≡◌, refl, subst, sym, Option, none, some, ok, arith, if◌then◌else◌, ◌==◌}
use taskqueue_go.Prelude.Int.{pos, leb_ℤ}
use taskqueue_go.Models.Task
use taskqueue_go.Models.Task.{TaskType}
use taskqueue_go.Registry.Definition
use taskqueue_go.Registry.Definition.{TaskDefinition, to_task, to_time_of_day}
use taskqueue_go.Registry.Validate.{validate_task}
use taskqueue_go.Registry.Valid.{
  IsValidTask, validate_task-IsValidTask, filled, validate_task-filled,
}

abbrev pub SameClock : Option Definition.TimeOfDay → Option Task.TimeOfDay → Type 0
SameClock none at = at ≡ none
SameClock (some a) at =
    (b : Task.TimeOfDay) × (at ≡ some b) × (b.hour_of_day ≡ a.hour_of_day) × (b.minute ≡ a.minute)

-- The fields of the definition, with UTC, POST and the task's timeout where it names no time zone,
-- no method and no positive duration.
pub record IsKept (def : TaskDefinition) (u : TaskType) : Type 0 where
  pub id : u.id ≡ def.id
  pub name : u.name ≡ def.name
  pub description : u.description ≡ def.description
  pub type : u.interval.type ≡ def.interval.type
  pub value : u.interval.value ≡ def.interval.value
  pub timezone :
      u.interval.timezone ≡ (if def.interval.timezone == "" then "UTC" else def.interval.timezone)
  pub at_time : SameClock def.interval.at_time u.interval.at_time
  pub timeout : u.timeout ≡ def.timeout
  pub retries : u.retries ≡ def.retries
  pub endpoint : u.config.endpoint ≡ def.config.endpoint
  pub method : u.config.method ≡ (if def.config.method == "" then "POST" else def.config.method)
  pub headers : u.config.headers ≡ def.config.headers
  pub max_duration :
      u.config.max_duration
      ≡ (if leb_ℤ def.config.max_duration (pos 0) then def.timeout else def.config.max_duration)
  pub valid : IsValidTask u

to_time_of_day-SameClock : (at : Option Definition.TimeOfDay) → SameClock at (to_time_of_day at)
to_time_of_day-SameClock none = refl
to_time_of_day-SameClock (some a) = (_, refl, refl, refl)

filled-IsKept :
    (def : TaskDefinition) → IsValidTask (filled (to_task def)) → IsKept def (filled (to_task def))
unfolding to_task
filled-IsKept def v = record {
  id = refl;
  name = refl;
  description = refl;
  type = ground arith;
  value = ground arith;
  timezone = ground arith;
  at_time =
      subst (SameClock def.interval.at_time) (ground arith)
        (to_time_of_day-SameClock def.interval.at_time);
  timeout = refl;
  retries = refl;
  endpoint = ground arith;
  method = ground arith;
  headers = ground arith;
  max_duration = ground arith;
  valid = v;
}

-- What passes the validation is kept so.
pub validate_task-IsKept :
    (def : TaskDefinition) (u : TaskType) → validate_task (to_task def) ≡ ok u → IsKept def u
validate_task-IsKept def u e =
    let same = validate_task-filled (to_task def) u e in
    let valid = (validate_task-IsValidTask (to_task def) u e).0 in
    subst (IsKept def) (sym same) (filled-IsKept def (subst IsValidTask same valid))
