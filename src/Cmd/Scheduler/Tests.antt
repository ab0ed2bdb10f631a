-- ===== src/Cmd/Scheduler/Tests.antt =====
-- cmd/scheduler/main.go: the theorem at one start-up, and how a start-up fails.
use taskqueue_go.Prelude.{◌≡◌, refl, none, some, [], ◌∷◌, String, Result, ok, true, string_dec}
use taskqueue_go.Prelude.Int.{pos}
use taskqueue_go.Prelude.Dict.{insert}
use taskqueue_go.Prelude.Text.{int_text}
use taskqueue_go.Queue
use taskqueue_go.Queue.{Client, new_client, backend_config}
use taskqueue_go.Registry.{new_task_registry, load_from_file, read_tasks, store_tasks}
use taskqueue_go.Registry.Definition.{to_task}
use taskqueue_go.Registry.Validate.{validate_task, validate_interval}
use taskqueue_go.Registry.Tests.{def}
use taskqueue_go.Distributor
use taskqueue_go.Scheduler.Loop
use taskqueue_go.Cmd.{exited, load_config, level_of, setup_logging}
use taskqueue_go.Cmd.Steps.{HoldsTasks}
use taskqueue_go.Cmd.Worker.Tests.{outside}
use taskqueue_go.Cmd.Worker.Tests
use taskqueue_go.Cmd.Scheduler.{Config, Service, scheduler_config, connect_all, set_up}
use taskqueue_go.Cmd.Scheduler.Started.{Follows, set_up-HoldsTasks}

abbrev settings : Config
settings = record {
  server = Tests.settings.server;
  redis = Tests.settings.redis;
  queue = Tests.settings.queue;
  scheduler = record {
    check_interval = pos 60_000_000_000;
    batch_size = pos 100;
    distribution_window = pos 300_000_000_000;
    leader_election_ttl = pos 30_000_000_000;
    enable_leader_election = true;
  };
  logging = Tests.settings.logging;
  metrics = record { enabled = true; port = pos 9090; path = "/metrics" };
  health = Tests.settings.health;
}

abbrev parse : String → Result Config
parse text = ok settings

abbrev service : Service (Unit {0}) (Unit {0})
unfolding Loop.new Distributor.new
service = record {
  logger = Tests.service.logger;
  redis_client = tt;
  scheduler =
      Loop.new (scheduler_config settings.scheduler) Tests.service.pool.queue_client
        Tests.service.pool.registry;
  health = Tests.service.health;
  metrics = some (record {
    addr = ":9090";
    pattern_path = "/metrics";
    body = "# Metrics not implemented yet\n";
  });
  shutdown_timeout = pos 10_000_000_000;
}

set_up-HoldsTasks_example :
    (cfg : Config) × (load_config outside.read_file parse "config/scheduler.yaml" ≡ ok cfg)
    × (outside.ping service.redis_client ≡ none)
    × Follows cfg.scheduler service.scheduler
    × HoldsTasks outside service.scheduler.registry
unfolding set_up load_config connect_all new_client Queue.with_defaults backend_config
    load_from_file new_task_registry read_tasks store_tasks validate_task validate_interval to_task
    setup_logging level_of int_text string_dec insert Loop.new Distributor.new
set_up-HoldsTasks_example = set_up-HoldsTasks outside parse "config/scheduler.yaml" service refl

-- A file of tasks with an invalid task ends the start-up.
invalid_tasks :
    set_up
      (record outside { parse_tasks = λ text. ok (record def { id = "" } ∷ []) })
      parse
      "config/scheduler.yaml"
    ≡ exited "Failed to load task registry: invalid task : task ID is required"
unfolding set_up load_config connect_all new_client Queue.with_defaults backend_config
    load_from_file new_task_registry read_tasks store_tasks validate_task to_task string_dec
invalid_tasks = refl
