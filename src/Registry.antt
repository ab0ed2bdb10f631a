-- ===== src/Registry.antt =====
-- internal/storage/registry.go: the task definitions that a YAML file gives. The file's text and
-- gopkg.in/yaml.v3 are arguments of load_from_file. Each method holds the registry's lock from
-- beginning to end, so a method is one step.
pub mod Definition
pub mod Validate
pub mod Valid
pub mod Kept
pub mod Loaded
pub mod Later
pub mod Tests
use taskqueue_go.Prelude.{
  ℕ, ◌<>◌, Bool, true, false, Option, none, some, List, [], ◌∷◌, String, Result, ok, err, ◌>>=◌,
  ◌>>◌, wrap, length, Failure, if◌then◌else◌,
}
use taskqueue_go.Prelude.Dict.{Dict, lookup, insert, keys}
use taskqueue_go.Models.Task.{TaskType}
use Definition.{TaskDefinition, to_task}
use Validate.{validate_task}

pub record TaskRegistry : Type 0 where
  pub tasks : Dict TaskType
  pub file_path : String

unfoldable pub new_task_registry : String → TaskRegistry
new_task_registry file_path = record { tasks = []; file_path = file_path }

-- The loop of LoadFromFile over the definitions that are left, onto the tasks stored so far.
unfoldable pub store_tasks : List TaskDefinition → Dict TaskType → Result (Dict TaskType)
store_tasks [] tasks = ok tasks
store_tasks (def ∷ defs) tasks = do
  task ← wrap (λ e. "invalid task " <> (to_task def).id <> ": " <> e) (validate_task (to_task def))
  store_tasks defs (insert task.id task tasks)

-- LoadFromFile as far as it reads. `read_file` is os.ReadFile and `parse` is yaml.Unmarshal at
-- TaskConfig, the list of the file's definitions.
unfoldable pub read_tasks :
    (String → Result String)
    → (String → Result (List TaskDefinition))
    → String
    → Result (Dict TaskType)
read_tasks read_file parse file_path = do
  text ← wrap (λ e. "failed to read task definitions file: " <> e) (read_file file_path)
  defs ← wrap (λ e. "failed to parse task definitions: " <> e) (parse text)
  store_tasks defs []

abbrev pub with_tasks : TaskRegistry → Result (Dict TaskType) → Failure × TaskRegistry
with_tasks r (ok tasks) = (none, record r { tasks = tasks })
with_tasks r (err e) = (some e, r)

-- LoadFromFile
unfoldable pub load_from_file :
    (String → Result String)
    → (String → Result (List TaskDefinition))
    → TaskRegistry
    → Failure × TaskRegistry
load_from_file read_file parse r = with_tasks r (read_tasks read_file parse r.file_path)

abbrev found : String → Option TaskType → Result TaskType
found id none = err ("task not found: " <> id)
found id (some task) = ok task

-- Get and GetAll return copies: a value here.
unfoldable pub get : TaskRegistry → String → Result TaskType
get r id = found id (lookup id r.tasks)

unfoldable pub get_all : TaskRegistry → Dict TaskType
get_all r = r.tasks

unfoldable pub list : TaskRegistry → List String
list r = keys r.tasks

unfoldable pub count : TaskRegistry → ℕ
count r = length r.tasks
