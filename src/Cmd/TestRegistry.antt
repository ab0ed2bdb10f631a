-- ===== src/Cmd/TestRegistry.antt =====
-- cmd/test-registry/main.go: a program that loads the file of tasks and lists them. What it logs is
-- its output, but for the line that the registry is loaded. os.ReadFile and the YAML parser are arguments; Go leaves the order of maps open, and
-- the model goes in order of insertion.
pub mod Listed
pub mod Tests
use taskqueue_go.Prelude.{ℕ, ◌<>◌, none, some, List, [], ◌∷◌, String, Result, Failure}
use taskqueue_go.Prelude.Int.{ℤ}
use taskqueue_go.Prelude.Dict.{Dict}
use taskqueue_go.GoTime.{Duration}
use taskqueue_go.Models.Task.{TaskType, IntervalType}
use taskqueue_go.Registry.{TaskRegistry, new_task_registry, load_from_file, get_all, count}
use taskqueue_go.Registry.Definition.{TaskDefinition}
use taskqueue_go.Cmd.{SetUp, exited, ready}

-- The line of one task.
pub record Line : Type 0 where
  pub id : String
  pub name : String
  pub interval_type : IntervalType
  pub interval_value : ℤ
  pub timeout : Duration
  pub endpoint : String

pub record Listing : Type 0 where
  pub count : ℕ
  pub lines : List Line

-- filepath.Join("config", "tasks.yaml"), or the first argument; os.Args starts with the program.
abbrev pub config_path : List String → String
config_path (program ∷ path ∷ more) = path
config_path _ = "config/tasks.yaml"

abbrev pub line_of : String → TaskType → Line
line_of id task = record {
  id = id;
  name = task.name;
  interval_type = task.interval.type;
  interval_value = task.interval.value;
  timeout = task.timeout;
  endpoint = task.config.endpoint;
}

unfoldable pub lines_of : Dict TaskType → List Line
lines_of [] = []
lines_of ((id, task) ∷ tasks) = line_of id task ∷ lines_of tasks

abbrev pub listed : Failure × TaskRegistry → SetUp Listing
listed (some e, registry) = exited ("Failed to load task registry: " <> e)
listed (none, registry) =
    ready (record { count = count registry; lines = lines_of (get_all registry) })

unfoldable pub main :
    (String → Result String) → (String → Result (List TaskDefinition)) → List String → SetUp Listing
main read_file parse args =
    listed (load_from_file read_file parse (new_task_registry (config_path args)))
