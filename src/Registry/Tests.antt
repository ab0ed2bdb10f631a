-- ===== src/Registry/Tests.antt =====
-- internal/storage/registry.go: the theorems at concrete data.
use taskqueue_go.Prelude.{◌≡◌, ◌↔◌, refl, none, some, List, [], ◌∷◌, String, Result, ok, string_dec}
use taskqueue_go.Prelude.Int.{pos}
use taskqueue_go.Prelude.Dict.{lookup}
use taskqueue_go.Models.Task.{TaskType}
use taskqueue_go.Registry.{TaskRegistry, load_from_file, read_tasks, store_tasks}
use taskqueue_go.Registry.Definition.{TaskDefinition, to_task}
use taskqueue_go.Registry.Validate.{validate_task, validate_interval}
use taskqueue_go.Registry.Valid.{IsAcceptable, validate_task_iff}
use taskqueue_go.Registry.Loaded.{Keeps, last_of, load_from_file-Keeps}

abbrev pub def : TaskDefinition
def = record {
  id = "sync";
  name = "Sync";
  description = "";
  interval = record {
    type = "daily";
    value = pos 1;
    timezone = "";
    at_time = some (record { hour_of_day = pos 9; minute = pos 30 });
  };
  timeout = pos 5_000_000_000;
  retries = pos 3;
  config = record { endpoint = "http://a"; method = ""; headers = []; max_duration = pos 0 };
}

abbrev pub later : TaskDefinition
later = record def { name = "Sync again" }

abbrev pub kept : TaskDefinition → TaskType
kept d = record {
  id = "sync";
  name = d.name;
  description = "";
  interval = record {
    type = "daily";
    value = pos 1;
    timezone = "UTC";
    at_time = some (record { hour_of_day = pos 9; minute = pos 30 });
  };
  timeout = pos 5_000_000_000;
  retries = pos 3;
  config = record {
    endpoint = "http://a";
    method = "POST";
    headers = [];
    max_duration = pos 5_000_000_000;
  };
}

validate_task_iff_example :
    ((u : TaskType) × (validate_task (to_task def) ≡ ok u)) ↔ IsAcceptable (to_task def)
validate_task_iff_example = validate_task_iff (to_task def)

validated : validate_task (to_task def) ≡ ok (kept def)
unfolding validate_task validate_interval to_task string_dec
validated = refl

abbrev pub read_file : String → Result String
read_file path = ok "yaml"

abbrev pub parse_good : String → Result (List TaskDefinition)
parse_good text = ok (def ∷ later ∷ [])

abbrev start : TaskRegistry
start = record { tasks = []; file_path = "tasks.yaml" }

load_from_file-Keeps_example :
    (text : String) × (defs : List TaskDefinition) × (read_file start.file_path ≡ ok text)
    × (parse_good text ≡ ok defs)
    × Keeps
        (last_of "sync" defs none)
        (lookup "sync" (load_from_file read_file parse_good start).1.tasks)
unfolding load_from_file read_tasks store_tasks validate_task validate_interval to_task string_dec
load_from_file-Keeps_example = load_from_file-Keeps read_file parse_good start "sync" refl
