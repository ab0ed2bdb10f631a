-- ===== src/Cmd.antt =====
-- cmd/worker/main.go and cmd/scheduler/main.go: what their start-up has in common, the sections of
-- the configuration files, the logger and the servers. The file system, YAML, Redis, the queue
-- library and net/http are parameters or are left out.
pub mod Steps
pub mod Worker
pub mod Scheduler
pub mod TestRegistry
pub mod TestUserstore
use taskqueue_go.Prelude.{
  ◌<>◌, Bool, true, false, Option, none, some, List, String, Result, ok, err, ◌>>=◌, wrap, Failure,
  if◌then◌else◌, ◌==◌,
}
use taskqueue_go.Prelude.Int.{ℤ, pos}
use taskqueue_go.Prelude.Text.{int_text}
use taskqueue_go.GoTime.{Duration}
use taskqueue_go.Queue
use taskqueue_go.Queue.{Client, new_client}
use taskqueue_go.Queue.Backend.{BackendConfig}
use taskqueue_go.Registry.{TaskRegistry, new_task_registry, load_from_file}
use taskqueue_go.Registry.Definition.{TaskDefinition}

pub record ServerSection : Type 0 where
  pub port : ℤ  -- int
  pub read_timeout : Duration
  pub write_timeout : Duration
  pub shutdown_timeout : Duration

pub record RedisSection : Type 0 where
  pub addr : String
  pub password : String
  pub db : ℤ  -- int
  pub max_retries : ℤ  -- int
  pub dial_timeout : Duration
  pub read_timeout : Duration
  pub write_timeout : Duration

pub record QueueSection : Type 0 where
  pub redis_addr : String
  pub redis_password : String
  pub redis_db : ℤ  -- int
  pub queue_name : String
  pub max_retries : ℤ  -- int
  pub default_visibility : Duration
  pub dead_letter_queue : String

pub record LoggingSection : Type 0 where
  pub level : String
  pub format : String
  pub output : String

pub record MetricsSection : Type 0 where
  pub enabled : Bool
  pub port : ℤ  -- int
  pub path : String

pub record HealthSection : Type 0 where
  pub port : ℤ  -- int
  pub path : String

-- The fields of redis.Options that the programs set; the others keep Go's zero value.
pub record RedisOptions : Type 0 where
  pub addr : String
  pub password : String
  pub db : ℤ
  pub max_retries : ℤ
  pub dial_timeout : Duration
  pub read_timeout : Duration
  pub write_timeout : Duration

abbrev pub redis_options : RedisSection → RedisOptions
redis_options c = record {
  addr = c.addr;
  password = c.password;
  db = c.db;
  max_retries = c.max_retries;
  dial_timeout = c.dial_timeout;
  read_timeout = c.read_timeout;
  write_timeout = c.write_timeout;
}

abbrev pub queue_config : QueueSection → Queue.Config
queue_config c = record {
  redis_addr = c.redis_addr;
  redis_password = c.redis_password;
  redis_db = c.redis_db;
  queue_name = c.queue_name;
  max_retries = c.max_retries;
  default_visibility = c.default_visibility;
  dead_letter_queue = c.dead_letter_queue;
}

pub data Level : Type 0 where
  level_debug level_info level_warn level_error : Level

-- What setupLogging makes the default: a handler for JSON or for text, from a level on.
pub record Logger : Type 0 where
  pub level : Level
  pub json : Bool

unfoldable pub level_of : String → Level
level_of text =
    if text == "debug"
    then level_debug
    else if text == "info"
    then level_info
    else if text == "warn"
    then level_warn
    else if text == "error"
    then level_error
    else level_info

unfoldable pub setup_logging : LoggingSection → Logger
setup_logging c = record { level = level_of c.level; json = c.format == "json" }

-- A server with one handler, which answers with the status 200.
pub record HttpServer : Type 0 where
  pub addr : String
  pub pattern_path : String
  pub body : String

abbrev pub port_addr : ℤ → String
port_addr port = ":" <> int_text port

abbrev pub health_server : HealthSection → HttpServer
health_server c = record { addr = port_addr c.port; pattern_path = c.path; body = "OK" }

abbrev pub metrics_server : MetricsSection → Option HttpServer
metrics_server c =
    if c.enabled
    then some (record {
      addr = port_addr c.port;
      pattern_path = c.path;
      body = "# Metrics not implemented yet\n";
    })
    else none

-- What start-up asks of the outside: os.ReadFile, yaml.Unmarshal at the file of tasks,
-- redis.NewClient, Ping, and the library's NewRedisQueue.
pub record Outside (Connection Redis : Type 0) : Type 0 where
  pub read_file : String → Result String
  pub parse_tasks : String → Result (List TaskDefinition)
  pub new_redis : RedisOptions → Redis
  pub ping : Redis → Failure
  pub connect : BackendConfig → Result Connection

-- loadConfig; `parse` is yaml.Unmarshal at the program's Config.
unfoldable pub load_config {ℓ} :
    {A : Type ℓ} → (String → Result String) → (String → Result A) → String → Result A
load_config read_file parse filename = do
  data' ← wrap (λ e. "failed to read config file: " <> e) (read_file filename)
  wrap (λ e. "failed to parse config file: " <> e) (parse data')

-- How the start-up ends: os.Exit(1) after an error is logged (the log's message, then the error), a
-- panic, or the servers start.
pub data SetUp {ℓ} (A : Type ℓ) : Type ℓ where
  exited : String → SetUp A
  panicked : SetUp A
  ready : A → SetUp A

abbrev pub connected : Failure → Result (Unit {0})
connected none = ok tt
connected (some e) = err ("Failed to connect to Redis: " <> e)

abbrev pub loaded : Failure × TaskRegistry → Result TaskRegistry
loaded (none, r) = ok r
loaded (some e, r) = err ("Failed to load task registry: " <> e)

module _ {Connection Redis : Type 0} (o : Outside Connection Redis) where
  abbrev pub make_queue : QueueSection → Result (Client Connection)
  make_queue c =
      wrap (λ e. "Failed to create queue client: " <> e)
        (new_client o.connect (some (queue_config c)))

  abbrev pub load_tasks : Result TaskRegistry
  load_tasks =
      loaded (load_from_file o.read_file o.parse_tasks (new_task_registry "config/tasks.yaml"))
