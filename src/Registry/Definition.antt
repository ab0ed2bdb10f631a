-- ===== src/Registry/Definition.antt =====
-- internal/storage/registry.go: the records of the YAML file, and their conversion to task types.
use taskqueue_go.Prelude.{Option, none, some, String}
use taskqueue_go.Prelude.Int.{ℤ}
use taskqueue_go.Prelude.Dict.{Dict}
use taskqueue_go.GoTime.{Duration}
use taskqueue_go.Models.Task

pub record TimeOfDay : Type 0 where
  pub hour_of_day : ℤ
  pub minute : ℤ

pub record IntervalDefinition : Type 0 where
  pub type : String
  pub value : ℤ
  pub timezone : String
  pub at_time : Option TimeOfDay

pub record ConfigDefinition : Type 0 where
  pub endpoint : String
  pub method : String
  pub headers : Dict String
  pub max_duration : Duration

pub record TaskDefinition : Type 0 where
  pub id : String
  pub name : String
  pub description : String
  pub interval : IntervalDefinition
  pub timeout : Duration
  pub retries : ℤ
  pub config : ConfigDefinition

abbrev pub to_time_of_day : Option TimeOfDay → Option Task.TimeOfDay
to_time_of_day none = none
to_time_of_day (some tod) = some (record { hour_of_day = tod.hour_of_day; minute = tod.minute })

unfoldable pub to_task : TaskDefinition → Task.TaskType
to_task def = record {
  id = def.id;
  name = def.name;
  description = def.description;
  interval = record {
    type = def.interval.type;
    value = def.interval.value;
    timezone = def.interval.timezone;
    at_time = to_time_of_day def.interval.at_time;
  };
  timeout = def.timeout;
  retries = def.retries;
  config = record {
    endpoint = def.config.endpoint;
    method = def.config.method;
    headers = def.config.headers;
    max_duration = def.config.max_duration;
  };
}
